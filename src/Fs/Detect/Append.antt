-- ===== src/Fs/Detect/Append.antt =====
-- Adding a list of volumes to the volume list, until it is full.
use serra.Base.{
  ℕ, zero, suc, ◌+◌, ◌<◌, ◌≤◌, ◌≡◌, refl, List, [], ◌∷◌, some, ltb, if◌then◌else◌, length,
  get_elem?, arith, Bool-cases, inl, inr, ltb→lt, ltb→le,
}
use mathlib.Core.Path.{subst}
use mathlib.Core.Option.{some-injective}
use Prim.Native.Nat.{min}
use serra.Disk.{Volume, Volumes, volume_limit}
use serra.Fs.Detect.{add_volume}

unfoldable pub push_all : List Volume → Volumes → Volumes
push_all [] s = s
push_all (v ∷ vs) s =
    let rest = push_all vs (add_volume v s) in if ltb s.num_volumes volume_limit then rest else s

-- `t` is `s` with the volumes of `vs` behind those in use, as many as there is room for.
pub record Appends (vs : List Volume) (s t : Volumes) : Type 0 where
  pub count : t.num_volumes ≡ min volume_limit (s.num_volumes + length vs)
  pub added :
      (k : ℕ)
      → s.num_volumes + k < t.num_volumes
      → get_elem? vs k ≡ some (t.volume_list (s.num_volumes + k))
  pub kept : (i : ℕ) → i < s.num_volumes → t.volume_list i ≡ s.volume_list i
  pub enabled : t.is_enabled ≡ s.is_enabled

added_cons :
    (v : Volume) (vs : List Volume) (s t : Volumes)
    → Appends vs (add_volume v s) t
    → (k : ℕ) → s.num_volumes + k < t.num_volumes
    → get_elem? (v ∷ vs) k ≡ some (t.volume_list (s.num_volumes + k))
unfolding add_volume
added_cons v vs s t r zero p =
    let e : s.num_volumes + 0 ≡ s.num_volumes = omega arith in
    rw e (ground (arith, r.kept s.num_volumes))
added_cons v vs s t r (suc k) p =
    let e : s.num_volumes + suc k ≡ s.num_volumes + 1 + k = omega arith in
    rw e (r.added k (omega arith))

pub push_all-Appends :
    (vs : List Volume) (s : Volumes) → s.num_volumes ≤ volume_limit → Appends vs s (push_all vs s)
unfolding push_all add_volume
push_all-Appends [] s h = record {
  count = omega arith;
  added = λ k p. absurd (omega arith);
  kept = λ i p. refl;
  enabled = refl;
}
push_all-Appends (v ∷ vs) s h = elim (Bool-cases (ltb s.num_volumes volume_limit)) [
  | inr full ↦ rw full (record {
    count = omega (arith, ltb→le s.num_volumes volume_limit full);
    added = λ k p. absurd (omega arith);
    kept = λ i p. refl;
    enabled = refl;
  })
  | inl room ↦
      let r =
        push_all-Appends vs (add_volume v s)
          (omega (arith, ltb→lt s.num_volumes volume_limit room)) in
      rw room (record {
        count = omega (arith, r.count);
        added = added_cons v vs s _ r;
        kept = λ i p. ground (arith, r.kept i);
        enabled = r.enabled;
      })
]

-- Every volume of the list has the property.
unfoldable pub Each : (Volume → Type 0) → List Volume → Type 0
Each P vs = (k : ℕ) (v : Volume) → get_elem? vs k ≡ some v → P v

module _ (P : Volume → Type 0) where
  pub Each-nil : Each P []
  unfolding Each
  Each-nil k v e = cc

  pub Each-cons : (v : Volume) (vs : List Volume) → P v → Each P vs → Each P (v ∷ vs)
  unfolding Each
  Each-cons v vs h hs zero x e = subst P (some-injective v x e) h
  Each-cons v vs h hs (suc k) x e = hs k x e
