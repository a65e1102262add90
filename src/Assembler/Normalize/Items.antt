-- ===== src/Assembler/Normalize/Items.antt =====
-- Normalization bounds the text of each item.
use pancakes_harness.Prelude.{
  ◌≤◌, ◌≡◌, refl, true, false, ◌&&◌, not, List, [], ◌∷◌, map, arith, length, length-take_le, All,
  Bool-cases, inl, inr, ltb,
}
use pancakes_harness.Bytes.{codes, ◌==◌}
use pancakes_harness.Assembler.Packet.{WorkingItem, Request, elements, non_empty}
use pancakes_harness.Assembler.Normalize.{
  normalize_tool_result_item, drop_large, normalize_item, normalize_body, normalize_request,
}

-- An item whose text is bounded as its kind and its blob demand.
pub record IsTrimmed (i : WorkingItem) : Type 0 where
  pub blobbed : (i.blob_ref == codes "") ≡ false → length i.text ≤ 1024
  pub excerpt : (i.kind == codes "tool.result") ≡ true → length i.text ≤ 256
  pub summarized :
      (i.kind == codes "tool.result") ≡ true → (i.summary_ref == codes "") ≡ false → i.text ≡ []

-- the part of it that the first of the two loop steps gives
abbrev HasExcerpt : WorkingItem → Type 0
HasExcerpt i =
    (i.kind == codes "tool.result") ≡ true
    → (length i.text ≤ 256) × ((i.summary_ref == codes "") ≡ false → i.text ≡ [])

excerpt_text :
    (i : WorkingItem)
    → (length (normalize_tool_result_item i).text ≤ 256)
      × (((normalize_tool_result_item i).summary_ref == codes "") ≡ false
          → (normalize_tool_result_item i).text ≡ [])
unfolding normalize_tool_result_item
excerpt_text i = elim (Bool-cases (i.summary_ref == codes "")) [
  | inr there ↦ simp there (omega arith, λ h. refl)
  | inl bare ↦ elim (Bool-cases (ltb 256 (length i.text))) [
    | inl long ↦ simp (bare, long) (length-take_le 256 i.text, λ h. cc)
    | inr short ↦ simp (bare, short) (ground arith, λ h. cc)
  ]
]

drop_large-IsTrimmed : (i : WorkingItem) → HasExcerpt i → IsTrimmed (drop_large i)
unfolding drop_large
drop_large-IsTrimmed i h =
    elim (Bool-cases (not (i.blob_ref == codes "") && ltb 1024 (length i.text))) [
      | inl large ↦ simp large (record {
        blobbed = λ _. omega arith;
        excerpt = λ _. omega arith;
        summarized = λ _ _. refl;
      })
      | inr small ↦ simp small (record {
        blobbed = λ there. ground arith;
        excerpt = λ k. (h k).0;
        summarized = λ k. (h k).1;
      })
    ]

normalize_item-IsTrimmed : (i : WorkingItem) → IsTrimmed (normalize_item i)
unfolding normalize_item
normalize_item-IsTrimmed i = elim (Bool-cases (i.kind == codes "tool.result")) [
  | inl tool ↦ simp tool (drop_large-IsTrimmed (normalize_tool_result_item i) (λ _. excerpt_text i))
  | inr other ↦ simp other (drop_large-IsTrimmed i (λ k. cc (k, other)))
]

All-normalized : (is : List WorkingItem) → All IsTrimmed (map normalize_item is)
All-normalized [] = tt
All-normalized (i ∷ is) = (normalize_item-IsTrimmed i, All-normalized is)

All-non_empty : (is : List WorkingItem) → All IsTrimmed is → All IsTrimmed (elements (non_empty is))
All-non_empty [] h = tt
All-non_empty (i ∷ is) h = h

pub normalize_request-IsTrimmed :
    (r : Request) → All IsTrimmed (elements (normalize_request r).body.working_set)
unfolding normalize_request normalize_body
normalize_request-IsTrimmed r = All-non_empty _ (All-normalized _)
