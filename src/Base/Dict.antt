-- ===== src/Base/Dict.antt =====
-- Go maps with string keys, as association lists. `range` visits a map in an unspecified order,
-- so no law below fixes the place of an entry.
use Prim.Native.String.{String}
use mathlib.Core.Path.{◌≡◌, refl, sym, subst₂}
use mathlib.Core.Logic.{◌≢◌, inl, inr, if_pos, if_neg}
use mathlib.Core.Bool.{Bool, true}
use mathlib.Core.Option.{Option, none, some, none-ne-some, some-injective}
use mathlib.Core.List.{List, [], ◌∷◌}
use native.Mathlib.Omega.{arith}
use soul_room_edge_platform.Base.Tests.{◌==◌, if◌then◌else◌, string_dec, Bool-cases, Option-cases}

abbrev pub Dict {ℓ} : Type ℓ → Type ℓ
Dict V = List (String × V)

module _ {ℓ} {V : Type ℓ} where
  -- `v, ok := m[k]`
  unfoldable pub lookup : String → Dict V → Option V
  lookup k [] = none
  lookup k ((j, v) ∷ m) = if j == k then some v else lookup k m

  -- `m[k] = v`
  unfoldable pub insert : String → V → Dict V → Dict V
  insert k v [] = (k, v) ∷ []
  insert k v ((j, w) ∷ m) = if j == k then (k, v) ∷ m else (j, w) ∷ insert k v m

  -- `delete(m, k)`
  unfoldable pub erase : String → Dict V → Dict V
  erase k [] = []
  erase k ((j, w) ∷ m) = let rest = erase k m in if j == k then rest else (j, w) ∷ rest

  -- `for k, v := range m { if !keep(k, v) { delete(m, k) } }`
  unfoldable pub retain : (String → V → Bool) → Dict V → Dict V
  retain keep [] = []
  retain keep ((j, w) ∷ m) =
      let rest = retain keep m in if keep j w then (j, w) ∷ rest else erase j rest

  -- The same loop where each entry is kept, changed or deleted.
  unfoldable pub rewrite : (String → V → Option V) → Dict V → Dict V
  rewrite f [] = []
  rewrite f ((j, w) ∷ m) =
      let rest = rewrite f m in elim (f j w) [ some v ↦ (j, v) ∷ rest | none ↦ erase j rest ]

  -- The values, in the order of the list.
  unfoldable pub values : Dict V → List V
  values [] = []
  values ((_, v) ∷ m) = v ∷ values m

  unfoldable pub keys : Dict V → List String
  keys [] = []
  keys ((k, _) ∷ m) = k ∷ keys m

  pub lookup-insert :
      (written read : String) (value : V) (entries : Dict V)
      → lookup read (insert written value entries)
        ≡ (if written == read then some value else lookup read entries)
  unfolding lookup insert
  lookup-insert written read value [] = refl
  lookup-insert written read value ((key, old) ∷ rest) =
      ground (arith, lookup-insert written read value rest)

  pub lookup-erase :
      (k j : String) (m : Dict V) → lookup j (erase k m) ≡ (if k == j then none else lookup j m)
  unfolding lookup erase
  lookup-erase k j [] = ground arith
  lookup-erase k j ((i, w) ∷ m) = ground (arith, lookup-erase k j m)

  -- A property of every entry.
  abbrev pub Entries {κ} : (String → V → Type κ) → Dict V → Type κ
  Entries P [] = Unit
  Entries P ((k, v) ∷ m) = P k v × Entries P m

  pub Entries-lookup {κ} :
      (P : String → V → Type κ) (k : String) (m : Dict V) {v : V}
      → Entries P m
      → lookup k m ≡ some v
      → P k v
  unfolding lookup
  Entries-lookup P k [] h e = absurd (none-ne-some _ e)
  Entries-lookup P k ((j, w) ∷ m) h e = elim (string_dec j k) [
    | yes same ↦ subst₂ P same (some-injective w _ (ground arith)) h.0
    | no other ↦ Entries-lookup P k m h.1 (ground arith)
  ]

  pub Entries-insert {κ} :
      (P : String → V → Type κ) (k : String) (v : V) (m : Dict V)
      → Entries P m
      → P k v
      → Entries P (insert k v m)
  unfolding insert
  Entries-insert P k v [] h p = (p, tt)
  Entries-insert P k v ((j, w) ∷ m) h p = ground (arith, Entries-insert P k v m h.1 p)

  pub Entries-erase {κ} :
      (P : String → V → Type κ) (k : String) (m : Dict V) → Entries P m → Entries P (erase k m)
  unfolding erase
  Entries-erase P k [] h = tt
  Entries-erase P k ((j, w) ∷ m) h = ground (arith, Entries-erase P k m h.1)

  -- What the test of `retain` adds to a property.
  pub Entries-retain {κ ρ} :
      (P : String → V → Type κ) (Q : String → V → Type ρ) (keep : String → V → Bool) (m : Dict V)
      → ((k : String) (v : V) → P k v → keep k v ≡ true → Q k v)
      → Entries P m
      → Entries Q (retain keep m)
  unfolding retain
  Entries-retain P Q keep [] f h = tt
  Entries-retain P Q keep ((j, w) ∷ m) f h = elim (Bool-cases (keep j w)) [
    | inl e ↦ rw e (f j w h.0 e, Entries-retain P Q keep m f h.1)
    | inr e ↦ rw e (Entries-erase Q j (retain keep m) (Entries-retain P Q keep m f h.1))
  ]

  pub Entries-rewrite {κ ρ} :
      (P : String → V → Type κ) (Q : String → V → Type ρ) (f : String → V → Option V) (m : Dict V)
      → ((k : String) (v w : V) → P k v → f k v ≡ some w → Q k w)
      → Entries P m
      → Entries Q (rewrite f m)
  unfolding rewrite
  Entries-rewrite P Q f [] g h = tt
  Entries-rewrite P Q f ((j, w) ∷ m) g h = elim (Option-cases (f j w)) [
    | inl e ↦ rw (e, Entries) (Entries-erase Q j (rewrite f m) (Entries-rewrite P Q f m g h.1))
    | inr (v, e) ↦ rw (e, Entries) (g j w v h.0 e, Entries-rewrite P Q f m g h.1)
  ]

  pub Entries-map {κ ρ} :
      (P : String → V → Type κ) (Q : String → V → Type ρ) (m : Dict V)
      → ((k : String) (v : V) → P k v → Q k v)
      → Entries P m
      → Entries Q m
  Entries-map P Q [] f h = tt
  Entries-map P Q ((j, w) ∷ m) f h = (f j w h.0, Entries-map P Q m f h.1)

  -- An entry that the test keeps is found as before.
  pub lookup-retain :
      (keep : String → V → Bool) (k : String) (m : Dict V) (v : V)
      → lookup k m ≡ some v
      → keep k v ≡ true
      → lookup k (retain keep m) ≡ some v
  unfolding lookup retain
  lookup-retain keep k [] v e h = e
  lookup-retain keep k ((j, w) ∷ m) v e h =
      ground (arith, lookup-retain keep k m v, lookup-erase j k (retain keep m))

  -- What is left was there.
  pub lookup-retained :
      (keep : String → V → Bool) (k : String) (m : Dict V) (v : V)
      → lookup k (retain keep m) ≡ some v
      → lookup k m ≡ some v
  unfolding lookup retain
  lookup-retained keep k [] v e = e
  lookup-retained keep k ((j, w) ∷ m) v e =
      ground (arith, lookup-retained keep k m v, lookup-erase j k (retain keep m))

  -- No entry of the deleted key is left.
  pub Entries-erase_ne {κ ρ} :
      (P : String → V → Type κ) (Q : String → V → Type ρ) (k : String) (m : Dict V)
      → ((j : String) (v : V) → P j v → k ≢ j → Q j v)
      → Entries P m
      → Entries Q (erase k m)
  unfolding erase
  Entries-erase_ne P Q k [] f h = tt
  Entries-erase_ne P Q k ((j, w) ∷ m) f h = elim (string_dec j k) [
    | yes same ↦ rw (if_pos _ same) (Entries-erase_ne P Q k m f h.1)
    | no other ↦
        rw (if_neg _ other) (f j w h.0 (λ e. other (sym e)), Entries-erase_ne P Q k m f h.1)
  ]

  -- An entry that is changed is found with its new value.
  -- The entries that are left, for a change that does not depend on the key.
  pub lookup-rewritten :
      (f : V → Option V) (k : String) (m : Dict V)
      → lookup k (rewrite (λ _ v. f v) m) ≡ elim (lookup k m) [ none ↦ none | some v ↦ f v ]
  unfolding lookup rewrite
  lookup-rewritten f k [] = refl
  lookup-rewritten f k ((j, x) ∷ m) =
      ground (arith, lookup-rewritten f k m, lookup-erase j k (rewrite (λ _ v. f v) m))

  pub lookup-rewrite :
      (f : String → V → Option V) (k : String) (m : Dict V) (v w : V)
      → lookup k m ≡ some v
      → f k v ≡ some w
      → lookup k (rewrite f m) ≡ some w
  unfolding lookup rewrite
  lookup-rewrite f k [] v w e h = absurd (none-ne-some _ e)
  lookup-rewrite f k ((j, x) ∷ m) v w e h =
      ground (arith, lookup-rewrite f k m v w, lookup-erase j k (rewrite f m))
