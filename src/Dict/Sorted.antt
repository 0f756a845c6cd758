-- ===== src/Dict/Sorted.antt =====
-- A std::map keeps its keys in order and without duplicates.
use actuator_final.Prelude.{
  Bool, true, false, [], ◌∷◌, none, some, ◌≡◌, refl, arith, if◌then◌else◌, All, inl, inr, ap, ◌++◌,
  append-nil, append_assoc, Bool-cases, if_true, if_false, subst, sym, ◌∙◌,
}
use actuator_final.Text.{Text, text_eq, text_eq_iff, text_lt}
use actuator_final.Dict.{Dict, lookup, insert, erase, merge}

text_lt_trans : (a b c : Text) → text_lt a b ≡ true → text_lt b c ≡ true → text_lt a c ≡ true
unfolding text_lt
text_lt_trans [] [] c p q = q
text_lt_trans [] (y ∷ b) [] p q = cc
text_lt_trans [] (y ∷ b) (z ∷ c) p q = refl
text_lt_trans (x ∷ a) [] c p q = cc
text_lt_trans (x ∷ a) (y ∷ b) [] p q = cc
text_lt_trans (x ∷ a) (y ∷ b) (z ∷ c) p q = ground (arith, text_lt_trans a b c)

text_lt_connex : (a b : Text) → text_eq a b ≡ false → text_lt b a ≡ false → text_lt a b ≡ true
unfolding text_lt text_eq
text_lt_connex [] [] p q = cc
text_lt_connex [] (y ∷ b) p q = refl
text_lt_connex (x ∷ a) [] p q = cc
text_lt_connex (x ∷ a) (y ∷ b) p q = ground (arith, text_lt_connex a b)

pub text_lt_irrefl : (a : Text) → text_lt a a ≡ false
unfolding text_lt
text_lt_irrefl [] = refl
text_lt_irrefl (x ∷ a) = ground (arith, text_lt_irrefl a)

module _ {ℓ} {V : Type ℓ} where
  -- The key stands before all keys of the map.
  abbrev pub Before : Text → Dict V → Type 0
  Before k [] = Unit {0}
  Before k ((j, w) ∷ m) = (text_lt k j ≡ true) × Before k m

  abbrev pub IsSorted : Dict V → Type 0
  IsSorted [] = Unit {0}
  IsSorted ((k, v) ∷ m) = Before k m × IsSorted m

  Before-trans : (k j : Text) (m : Dict V) → text_lt k j ≡ true → Before j m → Before k m
  Before-trans k j [] h b = tt
  Before-trans k j ((i, w) ∷ m) h b = (text_lt_trans k j i h b.0, Before-trans k j m h b.1)

  Before-insert :
      (j k : Text) (v : V) (m : Dict V) → text_lt j k ≡ true → Before j m → Before j (insert k v m)
  unfolding insert
  Before-insert j k v [] h b = (h, tt)
  Before-insert j k v ((i, w) ∷ m) h b = ground (arith, Before-insert j k v m h b.1)

  pub insert-IsSorted : (k : Text) (v : V) (m : Dict V) → IsSorted m → IsSorted (insert k v m)
  unfolding insert
  insert-IsSorted k v [] s = (tt, tt)
  insert-IsSorted k v ((i, w) ∷ m) s = ground (
    arith,
    text_eq_iff i k,
    text_lt_connex i k,
    Before-trans k i m,
    Before-insert i k v m,
    insert-IsSorted k v m s.1,
  )

  pub lookup-Before : (k : Text) (m : Dict V) → Before k m → lookup k m ≡ none
  unfolding lookup
  lookup-Before k [] b = refl
  lookup-Before k ((i, w) ∷ m) b =
      ground (arith, text_eq_iff i k, text_lt_irrefl k, lookup-Before k m b.1)

  Before-erase : (j k : Text) (m : Dict V) → Before j m → Before j (erase k m)
  unfolding erase
  Before-erase j k [] b = tt
  Before-erase j k ((i, w) ∷ m) b = ground (arith, Before-erase j k m b.1)

  pub erase-IsSorted : (k : Text) (m : Dict V) → IsSorted m → IsSorted (erase k m)
  unfolding erase
  erase-IsSorted k [] s = tt
  erase-IsSorted k ((i, w) ∷ m) s = ground (arith, erase-IsSorted k m s.1, Before-erase i k m s.0)

  -- A predicate of every entry, read at one key and kept by a write.
  pub All-lookup {κ} :
      (P : Text × V → Type κ) (m : Dict V) (k : Text) {v : V}
      → All P m
      → lookup k m ≡ some v
      → (j : Text) × P (j, v)
  unfolding lookup
  All-lookup P [] k h e = cc
  All-lookup P ((i, w) ∷ m) k {v} h e = elim (Bool-cases (text_eq i k)) [
    | inl same ↦
        let held : some w ≡ some v = sym (if_true (some w) _ same) ∙ e in
        let value : w ≡ v = cc held in (i, subst (λ u. P (i, u)) value h.0)
    | inr other ↦ All-lookup P m k h.1 (sym (if_false (some w) _ other) ∙ e)
  ]

  pub All-insert {κ} :
      (P : Text × V → Type κ) (k : Text) (v : V) (m : Dict V)
      → P (k, v)
      → All P m
      → All P (insert k v m)
  unfolding insert
  All-insert P k v [] p h = (p, tt)
  All-insert P k v ((i, w) ∷ m) p h =
      let deeper = All-insert P k v m p h.1 in place (text_eq i k) (text_lt k i) deeper
    where
      place :
          (a b : Bool)
          → All P (insert k v m)
          → All P
              (if a then (k, v) ∷ m else if b then (k, v) ∷ (i, w) ∷ m else (i, w) ∷ insert k v m)
      place true b d = (p, h.1)
      place false true d = (p, h)
      place false false d = (h.0, d)

  -- The keys of the map stand before the key.
  abbrev AllBefore : Dict V → Text → Type 0
  AllBefore [] k = Unit {0}
  AllBefore ((j, w) ∷ m) k = (text_lt j k ≡ true) × AllBefore m k

  insert-last : (k : Text) (v : V) (m : Dict V) → AllBefore m k → insert k v m ≡ m ++ (k, v) ∷ []
  unfolding insert
  insert-last k v [] b = refl
  insert-last k v ((j, w) ∷ m) b =
      ground (arith, text_eq_iff j k, text_lt_irrefl k, text_lt_trans k j k, insert-last k v m b.1)

  AllBefore-trans : (m : Dict V) (k j : Text) → AllBefore m k → text_lt k j ≡ true → AllBefore m j
  AllBefore-trans [] k j b h = tt
  AllBefore-trans ((i, w) ∷ m) k j b h = (text_lt_trans i k j b.0 h, AllBefore-trans m k j b.1 h)

  AllBefore-append :
      (m : Dict V) (k j : Text) (v : V)
      → AllBefore m j
      → text_lt k j ≡ true
      → AllBefore (m ++ (k, v) ∷ []) j
  AllBefore-append [] k j v b h = (h, tt)
  AllBefore-append ((i, w) ∷ m) k j v b h = (b.0, AllBefore-append m k j v b.1 h)

  abbrev Follows : Dict V → Dict V → Type 0
  Follows m [] = Unit {0}
  Follows m ((k, v) ∷ d) = AllBefore m k

  Follows-append :
      (m d : Dict V) (k : Text) (v : V) → AllBefore m k → Before k d → Follows (m ++ (k, v) ∷ []) d
  Follows-append m [] k v b h = tt
  Follows-append m ((j, w) ∷ d) k v b h = AllBefore-append m k j v (AllBefore-trans m k j b h.0) h.0

  merge-after : (m d : Dict V) → IsSorted d → Follows m d → merge m d ≡ m ++ d
  unfolding merge
  merge-after m [] s h = sym (append-nil m)
  merge-after m ((k, v) ∷ d) s h =
      ap (λ n. merge n d) (insert-last k v m h)
      ∙ (merge-after (m ++ (k, v) ∷ []) d s.1 (Follows-append m d k v h s.0)
          ∙ append_assoc m ((k, v) ∷ []) d)

  -- Writing the pairs of a map into an empty one copies it.
  pub merge-nil : (d : Dict V) → IsSorted d → merge [] d ≡ d
  merge-nil [] s = merge-after [] [] s tt
  merge-nil ((k, v) ∷ d) s = merge-after [] ((k, v) ∷ d) s tt
