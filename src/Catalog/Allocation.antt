-- ===== src/Catalog/Allocation.antt =====
-- The extents that Ez3CatalogLayout::allocationEnd of src/ez3_catalog.cpp gives to the ROMs.
use ezfadvance_iii.Prelude.{
  ℕ, zero, suc, ◌+◌, ◌/◌, ◌%◌, ◌^◌, ◌≤◌, ◌<◌, ◌≡◌, ◌≢◌, inl, inr, refl, Option, none, some, List,
  [], ◌∷◌, get_elem?, arith, Option-cases,
}
use ezfadvance_iii.Prelude.Bytes.{IsU32}
use ezfadvance_iii.CartridgeFormat.{CatalogEntry}
use ezfadvance_iii.Catalog.{stored_end, bounded_end, entry_end, allocation_end}
use native.Mathlib.Decide.{ℕ_discrete}
use native.Mathlib.Numerals.{add-one}
use native.Mathlib.Nat.{div-le_self}

stored_end_lem :
    (entry : CatalogEntry) (image_limit : ℕ) {stored : ℕ}
    → IsU32 image_limit
    → IsU32 entry.start
    → stored_end entry image_limit ≡ some stored
    → (entry.type ≤ 9)
      × (stored + 1 ≡ entry.start + image_limit / 2 ^ entry.type)
      × (stored < image_limit)
unfolding stored_end
stored_end_lem entry image_limit l s h = ground (arith, div-le_self image_limit (2 ^ entry.type))

-- The extent of a ROM that has one: it is not empty, ends within the image limit and within the
-- size class of the entry, and ends before the next entry, which starts later; the last ROM's
-- extent ends before a loader that stands behind its start.
pub record Extent (entry : CatalogEntry) (next : Option CatalogEntry)
    (loader_start image_limit end : ℕ) : Type 0 where
  pub known_type : entry.type ≤ 9
  pub nonempty : entry.start < end
  pub within_limit : end ≤ image_limit
  pub within_class : end ≤ entry.start + image_limit / 2 ^ entry.type
  pub before_next : (n : CatalogEntry) → next ≡ some n → (entry.start < n.start) × (end ≤ n.start)
  pub before_loader : next ≡ none → entry.start < loader_start → end ≤ loader_start

bounded_end_lem :
    (entry : CatalogEntry) (next : Option CatalogEntry) (loader_start image_limit stored end : ℕ)
    → entry.type ≤ 9
    → stored + 1 ≡ entry.start + image_limit / 2 ^ entry.type
    → stored < image_limit
    → bounded_end entry.start (stored + 1) loader_start next ≡ some end
    → Extent entry next loader_start image_limit end
unfolding bounded_end
bounded_end_lem entry none loader_start image_limit stored end t c l h = record {
  known_type = t;
  nonempty = ground arith;
  within_limit = ground arith;
  within_class = ground arith;
  before_next = λ n e. cc;
  before_loader = λ e k. ground arith;
}
bounded_end_lem entry (some n) loader_start image_limit stored end t c l h = record {
  known_type = t;
  nonempty = ground arith;
  within_limit = ground arith;
  within_class = ground arith;
  before_next = λ m e. let same : n ≡ m = ground arith in rw (← same) (ground arith, ground arith);
  before_loader = λ e k. cc;
}

entry_end_lem :
    (entry : CatalogEntry) (next : Option CatalogEntry) (loader_start image_limit end : ℕ)
    → IsU32 image_limit
    → IsU32 entry.start
    → entry_end entry next loader_start image_limit ≡ some end
    → Extent entry next loader_start image_limit end
unfolding entry_end
entry_end_lem entry next loader_start image_limit end l s h =
    elim (Option-cases (stored_end entry image_limit)) [
      | inl e ↦ let q : none ≡ some end = rw (e, entry_end) at h in cc
      | inr (stored, e) ↦
          let (t, c, b) = stored_end_lem entry image_limit l s e in
          let plain : (stored + 1) % 4294967296 ≡ stored + 1 = omega arith in
          let found : bounded_end entry.start (stored + 1) loader_start next ≡ some end =
            rw (e, entry_end, plain) at h in
          bounded_end_lem entry next loader_start image_limit stored end t c b found
    ]

-- With 32-bit fields, an extent that `allocationEnd` gives for the entry at an index satisfies
-- `Extent`: not empty, within the image limit and the size class, before the next entry, and for
-- the last entry before a loader behind its start.
pub allocation_end-Extent :
    (entries : List CatalogEntry) (index loader_start image_limit end : ℕ) (entry : CatalogEntry)
    → get_elem? entries index ≡ some entry
    → IsU32 image_limit
    → IsU32 entry.start
    → allocation_end entries index loader_start image_limit ≡ some end
    → Extent entry (get_elem? entries (index + 1)) loader_start image_limit end
unfolding allocation_end
allocation_end-Extent entries index loader_start image_limit end entry found l s h =
    entry_end_lem entry _ loader_start image_limit end l s (rw (found, allocation_end) at h)

get_elem?-suc :
    (entries : List CatalogEntry) (i : ℕ) {e : CatalogEntry}
    → get_elem? entries (suc i) ≡ some e
    → (d : CatalogEntry) × (get_elem? entries i ≡ some d)
get_elem?-suc [] i h = cc
get_elem?-suc (x ∷ xs) zero h = (x, refl)
get_elem?-suc (x ∷ xs) (suc i) h = get_elem?-suc xs i h

module _ (entries : List CatalogEntry) (loader_start image_limit : ℕ)
    (limit_word : IsU32 image_limit)
    (words : (i : ℕ) (e : CatalogEntry) → get_elem? entries i ≡ some e → IsU32 e.start) where
  ordered :
      (i : ℕ) {e n : CatalogEntry}
      → allocation_end entries i loader_start image_limit ≢ none
      → get_elem? entries i ≡ some e
      → get_elem? entries (suc i) ≡ some n
      → e.start < n.start
  ordered i {e} {n} has at next =
      elim (Option-cases (allocation_end entries i loader_start image_limit)) [
        | inl bad ↦ absurd (has bad)
        | inr (end, h) ↦
            let x =
              allocation_end-Extent entries i loader_start image_limit end e at limit_word
                (words i e at) h in
            (x.before_next n (rw add-one next)).0
      ]

  -- Extents do not overlap: in a catalog of 32-bit fields, when every entry from `index` up to
  -- `later` has an extent, the extent at `index` ends no later than the entry at `later` starts.
  pub allocation_end_disjoint :
      (later index end : ℕ) (l : CatalogEntry)
      → index < later
      → allocation_end entries index loader_start image_limit ≡ some end
      → ((k : ℕ) → index < k → k < later → allocation_end entries k loader_start image_limit ≢ none)
      → get_elem? entries later ≡ some l
      → end ≤ l.start
  allocation_end_disjoint zero index end l lt h all at = absurd (omega arith)
  allocation_end_disjoint (suc mid) index end l lt h all at =
      let (m, m_at) = get_elem?-suc entries mid at in
      elim (ℕ_discrete index mid) [
        | yes same ↦
            let x =
              allocation_end-Extent entries mid loader_start image_limit end m m_at limit_word
                (words mid m m_at) (rw same at h) in
            (x.before_next l (rw add-one at)).1
        | no other ↦
            let before =
              allocation_end_disjoint mid index end m (omega arith) h
                (λ k low high. all k low (omega arith)) m_at in
            let after = ordered mid (all mid (omega arith) (omega arith)) m_at at in
            omega (arith, before, after)
      ]
