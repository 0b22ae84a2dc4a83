-- ===== src/Dispatch/Table/Injective.antt =====
-- When `TableCompact` finds its mapping injective: all keys are below the size of the table.
use principal_katas.Prelude.{
  ℕ, ◌%◌, ◌<◌, ◌≡◌, refl, ◌⊎◌, inl, inr, true, false, not, ◌&&◌, List, [], ◌∷◌, ◌++◌, arith, ◌==◌,
  Bool-cases,
}
use principal_katas.Dispatch.Handler.{Declaring}
use principal_katas.Dispatch.Table.{
  Entry, TableCompact, empty_key, compact_size, entries, keys_loop, distinct_keys, contains,
  claim_compact, fill_compact, table_compact,
}

module _ {W : Type 0} where
  -- every handler declares a key below the table's size
  abbrev pub SmallKeys : List (Declaring W) → Type 0
  SmallKeys [] = Unit
  SmallKeys (h ∷ hs) = (h.declare.key < compact_size) × SmallKeys hs

abbrev AllSmall : List ℕ → Type 0
AllSmall [] = Unit
AllSmall (k ∷ ks) = (k < compact_size) × AllSmall ks

AllSmall-snoc : (ks : List ℕ) (k : ℕ) → AllSmall ks → k < compact_size → AllSmall (ks ++ k ∷ [])
AllSmall-snoc [] k a h = (h, tt)
AllSmall-snoc (x ∷ ks) k a h = (a.0, AllSmall-snoc ks k a.1 h)

not-contains_empty : (ks : List ℕ) → AllSmall ks → contains ks empty_key ≡ false
not-contains_empty [] a = refl
not-contains_empty (k ∷ ks) a = ground (arith, not-contains_empty ks a.1)

module _ {W : Type 0} where
  keys_loop-AllSmall :
      (hs : List (Declaring W)) (ks : List ℕ)
      → SmallKeys hs
      → AllSmall ks
      → AllSmall (keys_loop (entries hs) ks)
  unfolding keys_loop entries
  keys_loop-AllSmall [] ks s a = a
  keys_loop-AllSmall (h ∷ hs) ks s a = elim (Bool-cases (contains ks h.declare.key)) [
    | inl old ↦ keys_loop-AllSmall hs _ s.1 (rw old a)
    | inr new ↦ keys_loop-AllSmall hs _ s.1 (rw new (AllSmall-snoc ks h.declare.key a s.0))
  ]

  -- a slot holds no key, or the one key that is its index
  abbrev Direct : TableCompact W → Type 0
  Direct t = (b : ℕ) → b < compact_size → ((t.tbl b).key ≡ empty_key) ⊎ ((t.tbl b).key ≡ b)

  claim-Direct :
      (es : List (Entry W)) (k : ℕ) (t : TableCompact W)
      → k < compact_size
      → Direct t
      → Direct (claim_compact es k t)
  unfolding claim_compact
  claim-Direct es k t h d b hb = ground (arith, d b hb)

  fill_compact-injective :
      (es : List (Entry W)) (ks : List ℕ) (t : TableCompact W)
      → AllSmall ks
      → Direct t
      → t.injective ≡ true
      → (fill_compact es ks t).injective ≡ true
  unfolding fill_compact claim_compact
  fill_compact-injective es [] t a d up = up
  fill_compact-injective es (k ∷ ks) t a d up =
      rw (free, fill_compact)
        (fill_compact-injective es ks (claim_compact es k t) a.1 (claim-Direct es k t a.0 d) up')
    where
      free :
          (not ((t.tbl (k % compact_size)).key == empty_key)
            && not ((t.tbl (k % compact_size)).key == k))
          ≡ false
      free = ground (arith, d (k % compact_size))

      up' : (claim_compact es k t).injective ≡ true
      up' = up

  -- Handlers with keys below 1024 never collide, and none of them claims the sentinel's key.
  pub small_injective :
      (hs : List (Declaring W))
      → SmallKeys hs
      → ((table_compact hs).injective ≡ true)
        × (contains (distinct_keys (entries hs)) empty_key ≡ false)
  unfolding table_compact distinct_keys
  small_injective hs s =
      let small = keys_loop-AllSmall hs [] s tt in
      (
        fill_compact-injective (entries hs) _ _ small (λ b h. inl refl) refl,
        not-contains_empty _ small,
      )
