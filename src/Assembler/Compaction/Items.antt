-- ===== src/Assembler/Compaction/Items.antt =====
-- A property of items that compaction keeps: one that survives the loss of a text or a provenance
-- and, where the body has a checkpoint, holds of the checkpoint item.
use pancakes_harness.Prelude.{
  arith, ◌≡◌, ℕ, zero, suc, ◌&&◌, not, Bool, true, false, Option, none, some, List, [], ◌∷◌, map,
  All, Bool-cases, inl, inr, if◌then◌else◌, ltb, length,
}
use pancakes_harness.Prelude.Int.{lebℤ}
use pancakes_harness.Bytes.{Str, codes, ◌==◌}
use pancakes_harness.Assembler.Packet.{WorkingItem, PacketBody, elements, non_empty, clone_body}
use pancakes_harness.Assembler.Compaction.{
  drop_provenance, drop_summarized, drop_blobbed, each, newest_of, newest, collapse,
  checkpoint_item, compact,
}

pub record Closed (P : WorkingItem → Type 0) : Type 0 where
  pub no_text : (i : WorkingItem) → P i → P (record i { text = codes "" })
  pub no_provenance : (i : WorkingItem) → P i → P (record i { provenance = codes "" })

module _ (P : WorkingItem → Type 0) (closed : Closed P) where
  All-map :
      (f : WorkingItem → WorkingItem)
      → ((i : WorkingItem) → P i → P (f i))
      → (is : List WorkingItem) → All P is
      → All P (map f is)
  All-map f k [] h = tt
  All-map f k (i ∷ is) (p, h) = (k i p, All-map f k is h)

  All-each :
      (f : WorkingItem → WorkingItem)
      → ((i : WorkingItem) → P i → P (f i))
      → (ws : Option (List WorkingItem)) → All P (elements ws)
      → All P (elements (each f ws))
  unfolding each
  All-each f k none h = tt
  All-each f k (some is) h = All-map f k is h

  drop_provenance_keeps : (i : WorkingItem) → P i → P (drop_provenance i)
  unfolding drop_provenance
  drop_provenance_keeps i p = branch i.provenance_required
    where
      branch : (needed : Bool) → P (if needed then i else record i { provenance = codes "" })
      branch true = p
      branch false = closed.no_provenance i p

  drop_summarized_keeps : (i : WorkingItem) → P i → P (drop_summarized i)
  unfolding drop_summarized
  drop_summarized_keeps i p = elim (Bool-cases (i.summary_ref == codes "")) [
    | inl bare ↦ rw bare p
    | inr there ↦ rw there (closed.no_text i p)
  ]

  drop_blobbed_keeps : (i : WorkingItem) → P i → P (drop_blobbed i)
  unfolding drop_blobbed
  drop_blobbed_keeps i p = elim (Bool-cases (i.blob_ref == codes "")) [
    | inl bare ↦ rw bare p
    | inr there ↦ rw there (closed.no_text i p)
  ]

  newest_of_keeps :
      (best : WorkingItem) (is : List WorkingItem) → P best → All P is → P (newest_of best is)
  unfolding newest_of
  newest_of_keeps best [] p h = p
  newest_of_keeps best (i ∷ is) p (q, h) =
      elim (Bool-cases (lebℤ i.frontier_ordinal best.frontier_ordinal)) [
        | inl stays ↦ rw stays (newest_of_keeps best is p h)
        | inr newer ↦ rw newer (newest_of_keeps i is q h)
      ]

  newest_keeps :
      (ws : Option (List WorkingItem)) → All P (elements ws) → All P (elements (newest ws))
  unfolding newest
  newest_keeps none h = tt
  newest_keeps (some []) h = tt
  newest_keeps (some (i ∷ [])) h = h
  newest_keeps (some (i ∷ j ∷ is)) (p, h) = (newest_of_keeps i (j ∷ is) p h, tt)

  collapse_keeps :
      (ref : Str) (ws : Option (List WorkingItem))
      → ((ref == codes "") ≡ false → P (checkpoint_item ref))
      → All P (elements ws)
      → All P (elements (collapse ref ws))
  unfolding collapse
  collapse_keeps ref ws checkpoint h =
      elim (Bool-cases (not (ref == codes "") && ltb 1 (length (elements ws)))) [
        | inl many ↦ rw many (checkpoint (ground arith), tt)
        | inr few ↦ rw few h
      ]

  pub compact_keeps :
      (n : ℕ) (b : PacketBody)
      → ((b.checkpoint_summary_ref == codes "") ≡ false
          → P (checkpoint_item b.checkpoint_summary_ref))
      → All P (elements b.working_set)
      → All P (elements (compact n b).working_set)
  unfolding compact
  compact_keeps (suc zero) b c h = h
  compact_keeps (suc (suc zero)) b c h =
      All-map drop_provenance drop_provenance_keeps (elements b.working_set) h
  compact_keeps (suc (suc (suc zero))) b c h =
      All-each drop_summarized drop_summarized_keeps b.working_set h
  compact_keeps (suc (suc (suc (suc zero)))) b c h =
      collapse_keeps b.checkpoint_summary_ref b.working_set c h
  compact_keeps (suc (suc (suc (suc (suc zero))))) b c h = newest_keeps b.working_set h
  compact_keeps (suc (suc (suc (suc (suc (suc zero)))))) b c h =
      All-each drop_blobbed drop_blobbed_keeps b.working_set h
  compact_keeps _ b c h = h

  pub clone_keeps :
      (b : PacketBody)
      → All P (elements b.working_set)
      → All P (elements (clone_body b).working_set)
  unfolding clone_body
  clone_keeps b h = cloned b.working_set h
    where
      cloned :
          (ws : Option (List WorkingItem))
          → All P (elements ws)
          → All P (elements (non_empty (elements ws)))
      cloned none h = tt
      cloned (some []) h = tt
      cloned (some (i ∷ is)) h = h
