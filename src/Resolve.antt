-- ===== src/Resolve.antt =====
-- Template inheritance: typescript/src/templates/resolve.ts. The logger's warnings are not modelled.
pub mod Merge
pub mod Walk
mod Tests
use licensing.Common.{
  ℕ, zero, suc, ◌==◌, String, Bool, true, false, Option, none, some, List, [], ◌∷◌, if◌then◌else◌,
  any, length,
}
use licensing.Types.{LicenseTemplate, UuidV7, JsonValue, JsonObject, obj, end, field}

-- `out[k]`
unfoldable pub get_field : String → JsonObject → Option JsonValue
get_field k end = none
get_field k (field j v rest) = let later = get_field k rest in if j == k then some v else later

-- `out[k] = v`
unfoldable pub set_field : String → JsonValue → JsonObject → JsonObject
set_field k v end = field k v end
set_field k v (field j w rest) =
    let later = set_field k v rest in if j == k then field j v rest else field j w later

unfoldable mutual
  -- `deepMergeJson`, entry after entry of `override`.
  pub deep_merge_json : JsonObject → JsonObject → JsonObject
  deep_merge_json base end = base
  deep_merge_json base (field k v rest) =
      deep_merge_json (set_field k (merge_value (get_field k base) v) base) rest

  -- What an entry becomes beside the value that stands there: two plain objects are merged.
  pub merge_value : Option JsonValue → JsonValue → JsonValue
  merge_value (some (obj existing)) (obj o) = obj (deep_merge_json existing o)
  merge_value _ v = v

-- `MAX_TEMPLATE_DEPTH`
abbrev pub max_template_depth : ℕ
max_template_depth = 5

-- The `while` loop of `resolveTemplate`, with `left` more ancestors allowed: the ancestors, the
-- closest first, and whether the cap was hit.
unfoldable pub walk_ancestors :
    (UuidV7 → Option LicenseTemplate)
    → ℕ
    → List UuidV7
    → Option UuidV7
    → List LicenseTemplate × Bool
walk_ancestors loader left visited none = ([], false)
walk_ancestors loader zero visited (some c) = ([], true)
walk_ancestors loader (suc left) visited (some c) =
    if any (λ v. v == c) visited then ([], false) else elim (loader c) [
      | none ↦ ([], false)
      | some node ↦
          let (rest, truncated) = walk_ancestors loader left (c ∷ visited) node.parent_id in
          (node ∷ rest, truncated)
    ]

-- The merge from the root to the leaf of one field of the templates.
unfoldable pub merge_chain : (LicenseTemplate → JsonObject) → List LicenseTemplate → JsonObject
merge_chain part [] = end
merge_chain part (t ∷ ancestors) = deep_merge_json (merge_chain part ancestors) (part t)

pub record ResolvedTemplate : Type 0 where
  pub id : UuidV7
  pub scope_id : Option UuidV7
  pub parent_id : Option UuidV7
  pub name : String
  pub max_usages : ℕ
  pub trial_duration_sec : ℕ
  pub trial_cooldown_sec : Option ℕ
  pub grace_duration_sec : ℕ
  pub force_online_after_sec : Option ℕ
  pub entitlements : JsonObject
  pub meta : JsonObject
  pub inherited_depth : ℕ
  pub truncated : Bool

-- `resolveTemplate`: the leaf with the merged `entitlements` and `meta`.
unfoldable pub resolve_template :
    LicenseTemplate → (UuidV7 → Option LicenseTemplate) → ResolvedTemplate
resolve_template leaf loader =
    let (chain, truncated) =
      walk_ancestors loader max_template_depth (leaf.id ∷ []) leaf.parent_id in
    record {
      id = leaf.id;
      scope_id = leaf.scope_id;
      parent_id = leaf.parent_id;
      name = leaf.name;
      max_usages = leaf.max_usages;
      trial_duration_sec = leaf.trial_duration_sec;
      trial_cooldown_sec = leaf.trial_cooldown_sec;
      grace_duration_sec = leaf.grace_duration_sec;
      force_online_after_sec = leaf.force_online_after_sec;
      entitlements = merge_chain (λ (t : LicenseTemplate). t.entitlements) (leaf ∷ chain);
      meta = merge_chain (λ (t : LicenseTemplate). t.meta) (leaf ∷ chain);
      inherited_depth = length chain;
      truncated = truncated;
    }
