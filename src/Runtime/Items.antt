-- ===== src/Runtime/Items.antt =====
-- Normalization and compaction keep what the items of a body show.
use pancakes_harness.Prelude.{
  ◌≡◌, refl, ap, ◌⊎◌, inl, inr, Bool, ◌&&◌, not, List, [], ◌∷◌, map, length, take, All, ltb,
  if◌then◌else◌, if_both,
}
use pancakes_harness.Bytes.{Str, codes, ◌==◌}
use pancakes_harness.Sort.{insert_sorted, sort_by}
use pancakes_harness.Eventlog.Event.{Event}
use pancakes_harness.Assembler.Packet.{WorkingItem, elements, non_empty}
use pancakes_harness.Assembler.Compaction.Items.{Closed}
use pancakes_harness.Assembler.Normalize.{normalize_tool_result_item, drop_large, normalize_item}
use pancakes_harness.Runtime.Selection.{text_of}
use pancakes_harness.Runtime.Texts.{Has, MayTell, Shown, Whole}

-- the text of an event, or its first 256 bytes
abbrev pub Cut : Event → Str → Type 0
Cut e s = (s ≡ text_of e) ⊎ (s ≡ take 256 (text_of e))

module _ (P : WorkingItem → Type 0) where
  All-insert_sorted :
      (less : WorkingItem → WorkingItem → Bool) (x : WorkingItem) (xs : List WorkingItem)
      → P x
      → All P xs
      → All P (insert_sorted less x xs)
  unfolding insert_sorted
  All-insert_sorted less x [] p ps = (p, tt)
  All-insert_sorted less x (y ∷ ys) p (q, qs) =
      if_both (All P) (less y x) (q, All-insert_sorted less x ys p qs) (p, (q, qs))

  pub All-sort_by :
      (less : WorkingItem → WorkingItem → Bool) (xs : List WorkingItem)
      → All P xs
      → All P (sort_by less xs)
  unfolding sort_by
  All-sort_by less [] ps = tt
  All-sort_by less (x ∷ xs) (p, ps) =
      All-insert_sorted less x (sort_by less xs) p (All-sort_by less xs ps)

  pub All-non_empty : (xs : List WorkingItem) → All P xs → All P (elements (non_empty xs))
  All-non_empty [] ps = tt
  All-non_empty (x ∷ xs) ps = ps

module _ (branch : Str) (searching : Bool) (es : List Event) where
  abbrev pub ShowsWhole : WorkingItem → Type 0
  ShowsWhole i = Shown branch searching es Whole i

  abbrev pub ShowsCut : WorkingItem → Type 0
  ShowsCut i = Shown branch searching es Cut i

  -- the item with another text
  retold :
      (M M' : Event → Str → Type 0) (i : WorkingItem) (s : Str) (t : Shown branch searching es M i)
      → (s ≡ []) ⊎ (MayTell branch t.0 × M' t.0 s)
      → Shown branch searching es M' (record i { text = s })
  retold M M' i s (e, h, t) told = (
    e,
    h,
    record {
      permitted = t.permitted;
      id = t.id;
      kind = t.kind;
      blob = t.blob;
      summary = t.summary;
      no_provenance = t.no_provenance;
      text = told;
    },
  )

  whole-ShowsCut : (i : WorkingItem) → ShowsWhole i → ShowsCut i
  whole-ShowsCut i (e, h, t) =
      retold Whole Cut i i.text (e, h, t)
        (elim t.text [ inl empty ↦ inl empty | inr (m, same) ↦ inr (m, inl same) ])

  cut-ShowsCut : (i : WorkingItem) → ShowsWhole i → ShowsCut (record i { text = take 256 i.text })
  unfolding take
  cut-ShowsCut i (e, h, t) =
      retold Whole Cut i (take 256 i.text) (e, h, t)
        (elim t.text [
          | inl empty ↦ inl (ap (take 256) empty)
          | inr (m, same) ↦ inr (m, inr (ap (take 256) same))
        ])

  bare-ShowsCut :
      (M : Event → Str → Type 0) (i : WorkingItem)
      → Shown branch searching es M i
      → ShowsCut (record i { text = codes "" })
  bare-ShowsCut M i t = retold M Cut i [] t (inl refl)

  tool_result-ShowsCut : (i : WorkingItem) → ShowsWhole i → ShowsCut (normalize_tool_result_item i)
  unfolding normalize_tool_result_item
  tool_result-ShowsCut i t =
      let cut : WorkingItem = record i { text = take 256 i.text } in
      let bare : WorkingItem = record i { text = codes "" } in
      let short : WorkingItem = if ltb 256 (length i.text) then cut else i in
      if_both ShowsCut (i.summary_ref == codes "") {x = short} {y = bare}
        (if_both ShowsCut (ltb 256 (length i.text)) {x = cut} {y = i} (cut-ShowsCut i t)
          (whole-ShowsCut i t))
        (bare-ShowsCut Whole i t)

  drop_large-ShowsCut : (i : WorkingItem) → ShowsCut i → ShowsCut (drop_large i)
  unfolding drop_large
  drop_large-ShowsCut i t =
      let bare : WorkingItem = record i { text = codes "" } in
      if_both ShowsCut (not (i.blob_ref == codes "") && ltb 1024 (length i.text)) {x = bare} {y = i}
        (bare-ShowsCut Cut i t) t

  normalize_item-ShowsCut : (i : WorkingItem) → ShowsWhole i → ShowsCut (normalize_item i)
  unfolding normalize_item
  normalize_item-ShowsCut i t =
      let cut : WorkingItem = normalize_tool_result_item i in
      let item : WorkingItem = if i.kind == codes "tool.result" then cut else i in
      drop_large-ShowsCut item (
        if_both ShowsCut (i.kind == codes "tool.result") {x = cut} {y = i}
          (tool_result-ShowsCut i t) (whole-ShowsCut i t))

  pub All-normalize :
      (is : List WorkingItem) → All ShowsWhole is → All ShowsCut (map normalize_item is)
  All-normalize [] h = tt
  All-normalize (i ∷ is) (t, ts) = (normalize_item-ShowsCut i t, All-normalize is ts)

  pub ShowsCut-Closed : Closed ShowsCut
  ShowsCut-Closed = record {
    no_text = λ i t. bare-ShowsCut Cut i t;
    no_provenance = λ i (e, h, t). (
      e,
      h,
      record {
        permitted = t.permitted;
        id = t.id;
        kind = t.kind;
        blob = t.blob;
        summary = t.summary;
        no_provenance = refl;
        text = t.text;
      },
    );
  }

-- More events show no less.
module _ (branch : Str) (searching : Bool) (es es' : List Event)
    (more : (e : Event) → Has e es → Has e es') where
  ShowsCut-mono :
      (i : WorkingItem) → ShowsCut branch searching es i → ShowsCut branch searching es' i
  ShowsCut-mono i (e, h, t) = (e, more e h, t)

  pub All-ShowsCut_mono :
      (is : List WorkingItem)
      → All (ShowsCut branch searching es) is
      → All (ShowsCut branch searching es') is
  All-ShowsCut_mono [] h = tt
  All-ShowsCut_mono (i ∷ is) (t, ts) = (ShowsCut-mono i t, All-ShowsCut_mono is ts)
