-- ===== src/Storage/Paging/Order.antt =====
-- The order of rows, `(created_at DESC, id DESC)`, is a strict total order of their keys.
use licensing.Common.{
  ◌≡◌, true, false, not, arith, text_lt_trans, text_lt_irrefl, text_lt_asymm, text_lt_connected,
  eq_iff,
}
use licensing.Storage.Paging.{CursorTuple, is_after, stays_before}

pub is_after_irrefl : (a : CursorTuple) → is_after a a ≡ false
unfolding is_after
is_after_irrefl a = ground (arith, text_lt_irrefl a.id, text_lt_irrefl a.created_at)

pub is_after_trans :
    (a b c : CursorTuple) → is_after a b ≡ true → is_after b c ≡ true → is_after a c ≡ true
unfolding is_after
is_after_trans a b c h k = ground (
  arith,
  eq_iff a.created_at b.created_at,
  eq_iff b.created_at c.created_at,
  eq_iff a.created_at c.created_at,
  text_lt_trans a.created_at b.created_at c.created_at,
  text_lt_asymm a.created_at b.created_at,
  text_lt_trans a.id b.id c.id,
)

pub is_after_asymm : (a b : CursorTuple) → is_after a b ≡ true → is_after b a ≡ false
is_after_asymm a b h = ground (arith, is_after_trans a b a h, is_after_irrefl a)

pub stays_before-eq-not : (a b : CursorTuple) → stays_before a b ≡ not (is_after a b)
unfolding stays_before is_after
stays_before-eq-not a b = ground (arith, eq_iff a.id b.id, text_lt_irrefl b.id)

pub is_after_connected : (a b : CursorTuple) → is_after a b ≡ false → is_after b a ≡ false → a ≡ b
unfolding is_after
is_after_connected a b h k = ground (
  arith,
  eq_iff a.created_at b.created_at,
  eq_iff b.created_at a.created_at,
  text_lt_connected a.created_at b.created_at,
  text_lt_connected a.id b.id,
)
