-- ===== src/Runtime/Texts.antt =====
-- Which events the items of a working set stand for, and what they show of them.
use mathlib.Core.Path.{subst}
use pancakes_harness.Prelude.{
  ℕ, ◌+◌, ◌≡◌, refl, sym, ◌∙◌, ap, ◌⊎◌, inl, inr, Bool, true, false, ◌||◌, Option, none, some, List,
  [], ◌∷◌, map, arith, All, leb, Bool-cases, if_both,
}
use pancakes_harness.Prelude.Int.{ℤ}
use pancakes_harness.Bytes.{Str, codes, ◌==◌, count_fields}
use pancakes_harness.Eventlog.Event.{Event, kind_tool_request, kind_tool_failure}
use pancakes_harness.Replay.Graph.{read_meta_string}
use pancakes_harness.Assembler.Packet.{WorkingItem}
use pancakes_harness.Egress.Kinds.{is_debug_never_kind, is_never_egress_kind}
use pancakes_harness.Egress.Classify.{Candidate, classify}
use pancakes_harness.Egress.Classify.Safety.{
  MayLeave, include_iff_MayLeave, classify-text, classify-summary,
}
use pancakes_harness.Egress.Select.{select_with_explanation, latest_ordinal}
use pancakes_harness.Egress.Select.Tallies.{select-map}
use pancakes_harness.Runtime.Selection.{
  Latest, latest_of, text_of, candidate_of, candidates_from, mark_found, enrich, candidates,
  is_among, working_set, item_of, summary_ref_of,
}

abbrev pub is_there : {A : Type 0} → Option A → Bool
is_there none = false
is_there (some a) = true

unfoldable pub Has : Event → List Event → Type 0
Has e [] = ⊥
Has e (x ∷ xs) = (e ≡ x) ⊎ Has e xs

-- an event on the branch, of a kind that text may leave with
pub record MayTell (branch : Str) (e : Event) : Type 0 where
  pub on_branch : (e.branch_id == branch) ≡ true
  pub may_leave : is_never_egress_kind e.kind ≡ false
  pub no_debug : is_debug_never_kind e.kind ≡ false
  pub no_request : (e.kind == kind_tool_request) ≡ false
  pub no_failure : (e.kind == kind_tool_failure) ≡ false

-- an event of another branch that is relevant to all and has a blob to refer to: it is marked in its
-- meta, or the session searches its events
pub record MayRefer (branch : Str) (searching : Bool) (e : Event) : Type 0 where
  pub may_leave : is_never_egress_kind e.kind ≡ false
  pub elsewhere : (e.branch_id == branch) ≡ false
  pub relevant :
      ((read_meta_string e.meta (codes "global_relevant") == codes "true") ≡ true)
      ⊎ (searching ≡ true)
  pub has_blob : (e.blob_ref == codes "") ≡ false

abbrev pub Whole : Event → Str → Type 0
Whole e s = s ≡ text_of e

-- An item shows an event that may leave: its id, its kind, its blob and its summary reference, and no
-- text, or text that the event may tell.
pub record Shows (branch : Str) (searching : Bool) (Matches : Event → Str → Type 0) (e : Event)
    (i : WorkingItem) : Type 0 where
  pub permitted : MayTell branch e ⊎ MayRefer branch searching e
  pub id : i.id ≡ e.id
  pub kind : i.kind ≡ e.kind
  pub blob : i.blob_ref ≡ e.blob_ref
  pub summary : i.summary_ref ≡ summary_ref_of e
  pub no_provenance : i.provenance ≡ []
  pub text : (i.text ≡ []) ⊎ (MayTell branch e × Matches e i.text)

neither : (a b : Bool) → (a || b) ≡ false → (a ≡ false) × (b ≡ false)
neither a b h = (ground arith, ground arith)

module _ (branch : Str) (searching : Bool) (es : List Event) where
  -- A candidate stands for an event.
  record StandsFor (c : Candidate) : Type 0 where
    event : Event
    listed : Has event es
    same_id : c.id ≡ event.id
    same_blob : c.blob_ref ≡ event.blob_ref
    same_summary : c.summary_ref ≡ summary_ref_of event
    relevant :
        c.is_global_relevant ≡ true
        → ((read_meta_string event.meta (codes "global_relevant") == codes "true") ≡ true)
          ⊎ (searching ≡ true)
    same_text : c.text ≡ text_of event
    same_kind : c.kind ≡ event.kind
    active : c.is_active_branch ≡ (event.branch_id == branch)
    sensitive :
        c.is_sensitive_local ≡ (event.kind == kind_tool_request || event.kind == kind_tool_failure)

  candidate_of-StandsFor :
      (latest : Latest) (i : ℕ) (e : Event) → Has e es → StandsFor (candidate_of branch latest i e)
  unfolding candidate_of
  candidate_of-StandsFor latest i e h = record {
    event = e;
    listed = h;
    same_id = refl;
    same_blob = refl;
    same_summary = refl;
    relevant = λ marked. inl marked;
    same_text = refl;
    same_kind = refl;
    active = refl;
    sensitive = refl;
  }

  candidates_from-StandsFor :
      (latest : Latest) (i : ℕ) (xs : List Event)
      → ((e : Event) → Has e xs → Has e es)
      → All StandsFor (candidates_from branch latest i xs)
  unfolding candidates_from Has
  candidates_from-StandsFor latest i [] within = tt
  candidates_from-StandsFor latest i (e ∷ xs) within = (
    candidate_of-StandsFor latest i e (within e (inl refl)),
    candidates_from-StandsFor latest (i + 1) xs (λ e' h. within e' (inr h)),
  )

  mark_found-StandsFor :
      (ids : List Str) (c : Candidate)
      → searching ≡ true
      → StandsFor c
      → StandsFor (mark_found ids c)
  unfolding mark_found
  mark_found-StandsFor ids c there h =
      if_both StandsFor (is_among c.id ids) {x = record c { is_global_relevant = true }}
        (record {
          event = h.event;
          listed = h.listed;
          same_id = h.same_id;
          same_blob = h.same_blob;
          same_summary = h.same_summary;
          relevant = λ _. inr there;
          same_text = h.same_text;
          same_kind = h.same_kind;
          active = h.active;
          sensitive = h.sensitive;
        })
        h

  All-map-StandsFor :
      (ids : List Str) (cs : List Candidate)
      → searching ≡ true
      → All StandsFor cs
      → All StandsFor (map (mark_found ids) cs)
  All-map-StandsFor ids [] there h = tt
  All-map-StandsFor ids (c ∷ cs) there (h, hs) =
      (mark_found-StandsFor ids c there h, All-map-StandsFor ids cs there hs)

  enrich-StandsFor :
      (search : Option (List Event → Str → List Str)) (indexed : List Event) (query : Str)
      (cs : List Candidate)
      → is_there search ≡ searching
      → All StandsFor cs
      → All StandsFor (enrich search indexed query cs)
  unfolding enrich
  enrich-StandsFor none indexed query cs there h = h
  enrich-StandsFor (some search) indexed query cs there h =
      if_both (All StandsFor) (leb 2 (count_fields query))
        (All-map-StandsFor (search indexed query) cs (sym there) h) h

  candidates-StandsFor :
      (search : Option (List Event → Str → List Str)) (indexed : List Event)
      → is_there search ≡ searching
      → All StandsFor (candidates search indexed branch es)
  unfolding candidates
  candidates-StandsFor search indexed there =
      enrich-StandsFor search indexed _ _ there
        (candidates_from-StandsFor (latest_of branch es) 0 es (λ e h. h))

  -- An item shows one of the events.
  abbrev pub Shown : (Event → Str → Type 0) → WorkingItem → Type 0
  Shown Matches i = (e : Event) × Has e es × Shows branch searching Matches e i

  told_by :
      (c : Candidate) (h : StandsFor c)
      → MayLeave c
      → c.is_active_branch ≡ true
      → MayTell branch h.event
  told_by c h (never, inr (other, _, _)) active = absurd (cc (other, active))
  told_by c h (never, inl (_, debug, local)) active = record {
    on_branch = sym h.active ∙ active;
    may_leave = ap is_never_egress_kind (sym h.same_kind) ∙ never;
    no_debug = ap is_debug_never_kind (sym h.same_kind) ∙ debug;
    no_request = (neither _ _ (sym h.sensitive ∙ local)).0;
    no_failure = (neither _ _ (sym h.sensitive ∙ local)).1;
  }

  permitted_by :
      (c : Candidate) (h : StandsFor c)
      → MayLeave c
      → MayTell branch h.event ⊎ MayRefer branch searching h.event
  permitted_by c h (never, inl (active, debug, local)) =
      inl (told_by c h (never, inl (active, debug, local)) active)
  permitted_by c h (never, inr (other, marked, blob)) = inr (record {
    may_leave = ap is_never_egress_kind (sym h.same_kind) ∙ never;
    elsewhere = sym h.active ∙ other;
    relevant = h.relevant marked;
    has_blob = ap (λ r. r == codes "") (sym h.same_blob) ∙ blob;
  })

  classify-Shown :
      (latest : ℤ) (c : Candidate)
      → StandsFor c
      → (classify latest c).include ≡ true
      → Shown Whole (item_of (classify latest c))
  classify-Shown latest c h included =
      let (told, same_id, same_kind, same_blob, _) = classify-text latest c in
      let leaves = (include_iff_MayLeave latest c).0 included in
      (
        h.event,
        h.listed,
        record {
          permitted = permitted_by c h leaves;
          id = same_id ∙ h.same_id;
          kind = same_kind ∙ h.same_kind;
          blob = same_blob ∙ h.same_blob;
          summary = classify-summary latest c included ∙ h.same_summary;
          no_provenance = refl;
          text = elim told [
            | inl (same, _, active, _) ↦ inr (told_by c h leaves active, same ∙ h.same_text)
            | inr empty ↦ inl empty
          ];
        },
      )

  working_set-Shown :
      (latest : ℤ) (cs : List Candidate)
      → All StandsFor cs
      → All (Shown Whole) (working_set (map (classify latest) cs))
  unfolding working_set
  working_set-Shown latest [] h = tt
  working_set-Shown latest (c ∷ cs) (h, hs) = elim (Bool-cases (classify latest c).include) [
    | inl yes_in ↦ rw yes_in (classify-Shown latest c h yes_in, working_set-Shown latest cs hs)
    | inr out ↦ rw out (working_set-Shown latest cs hs)
  ]

  -- Every item of the working set of a session shows one of its events.
  pub selected-Shown :
      (search : Option (List Event → Str → List Str)) (indexed : List Event)
      → is_there search ≡ searching
      → All
          (Shown Whole)
          (working_set (select_with_explanation (candidates search indexed branch es)).0)
  selected-Shown search indexed there =
      let cs = candidates search indexed branch es in
      subst (λ ss. All (Shown Whole) (working_set ss)) (sym (select-map cs))
        (working_set-Shown (latest_ordinal cs) cs (candidates-StandsFor search indexed there))
