-- ===== src/Storage/Frame.antt =====
-- What every action of the adapter leaves alone, and how it fails.
use licensing.Common.{ℕ, ◌+◌, ◌≤◌, ◌≡◌, refl, ◌∙◌, arith, inl, inr}
use licensing.Errors.{Error, Result, ok, err, Result-cases}
use licensing.Types.{UuidV7}
use licensing.Id.{uuid_v7_text}
use licensing.Storage.Monad.{State, World, Action, ◌>>=◌}

-- The depth, the clock and the supply of random bytes stay; bytes are only used up.
pub record Frame (w v : World) : Type 0 where
  pub depth : v.tx_depth ≡ w.tx_depth
  pub clock : v.clock ≡ w.clock
  pub random : v.random ≡ w.random
  pub draws : w.draws ≤ v.draws

pub Frame-refl : (w : World) → Frame w w
Frame-refl w = record { depth = refl; clock = refl; random = refl; draws = omega arith }

pub Frame-trans : (u v w : World) → Frame u v → Frame v w → Frame u w
Frame-trans u v w f g = record {
  depth = g.depth ∙ f.depth;
  clock = g.clock ∙ f.clock;
  random = g.random ∙ f.random;
  draws = omega arith;
}

-- The action threw, and the tables are those of `w`.
pub record Failed {A : Type 0} (w : World) (result : Result A × World) : Type 0 where
  pub error : Error
  pub thrown : result.0 ≡ err error
  pub state : result.1.state ≡ w.state
  pub frame : Frame w result.1

-- The action returned `a` and left the tables `s`.
pub record Done {A : Type 0} (w : World) (a : A) (s : State) (result : Result A × World)
    : Type 0 where
  pub returned : result.0 ≡ ok a
  pub state : result.1.state ≡ s
  pub frame : Frame w result.1

-- The identifier that `newUuidV7` makes in `w` after `readings` more readings of the clock.
abbrev pub minted_id : World → ℕ → UuidV7
minted_id w readings = uuid_v7_text (w.clock.now_ms (w.moment + readings)) (w.random w.draws)

-- `id` was made from random bytes that had not been used in `w`.
pub record Minted (w : World) (id : UuidV7) : Type 0 where
  pub ms : ℕ
  pub draw : ℕ
  pub unused : w.draws ≤ draw
  pub text : id ≡ uuid_v7_text ms (w.random draw)

pub minted_id-Minted : (w : World) (readings : ℕ) → Minted w (minted_id w readings)
minted_id-Minted w readings = record {
  ms = w.clock.now_ms (w.moment + readings);
  draw = w.draws;
  unused = omega arith;
  text = refl;
}

-- A chain that returned: its first action returned, and the rest went on from there.
pub >>=-eq-ok :
    {A B : Type 0} (m : Action A) (f : A → Action B) (w : World) (b : B)
    → ((m >>= f) w).0 ≡ ok b
    → (a : A) × ((m w).0 ≡ ok a) × ((f a (m w).1).0 ≡ ok b) × ((m >>= f) w ≡ f a (m w).1)
>>=-eq-ok m f w b h = elim (Result-cases (m w).0) [
  | inl (a, e) ↦ (a, e, ground arith, ground arith)
  | inr (x, e) ↦ absurd (ground arith)
]
