-- ===== src/Assembler/Assemble/Candidates/Budget.antt =====
-- The byte budget: what an accepted packet weighs on the wire.
use mathlib.Core.Path.{subst}
use pancakes_harness.Prelude.{
  ◌+◌, ◌-◌, ◌≤◌, ◌<◌, ◌≡◌, refl, sym, true, List, [], ◌∷◌, ◌++◌, arith, length, length-append, All,
}
use pancakes_harness.Bytes.{Str, codes}
use pancakes_harness.Json.{object}
use pancakes_harness.Assembler.Packet.{
  Header, PacketBody, Request, Packet, measure_headers, marshal_body, safety_margin_bytes,
  max_envelope_bytes,
}
use pancakes_harness.Assembler.Normalize.{normalize_request}
use pancakes_harness.Assembler.Assemble.{
  Frame, fits, packet_of, Assembled, accepted, rejected, frame_of, assemble,
}
use pancakes_harness.Assembler.Assemble.Candidates.{
  Candidate, candidates_of, Chosen, assemble-Chosen,
}

-- The request as HTTP/1.1 writes it.
unfoldable pub header_lines : List Header → Str
header_lines [] = 13 ∷ 10 ∷ []
header_lines (h ∷ hs) = h.name ++ (b':' ∷ 32 ∷ (h.value ++ (13 ∷ 10 ∷ header_lines hs)))

unfoldable pub wire : Request → Str → Str
wire r body =
    r.method
    ++ (32 ∷ (r.path ++ (codes " HTTP/1.1" ++ (13 ∷ 10 ∷ (header_lines r.headers ++ body)))))

length-header_lines : (hs : List Header) → length (header_lines hs) ≡ measure_headers hs
unfolding header_lines measure_headers
length-header_lines [] = refl
length-header_lines (h ∷ hs) = omega (
  arith,
  length-append h.name (b':' ∷ 32 ∷ (h.value ++ (13 ∷ 10 ∷ header_lines hs))),
  length-append h.value (13 ∷ 10 ∷ header_lines hs),
  length-header_lines hs,
)

length-wire :
    (r : Request) (body : Str)
    → length (wire r body)
      ≡ (frame_of r).request_line_bytes + (frame_of r).header_bytes + length body
unfolding wire frame_of
length-wire r body =
    let rest = header_lines r.headers ++ body in
    let line = codes " HTTP/1.1" ++ (13 ∷ 10 ∷ rest) in
    omega (
      arith,
      length-append r.method (32 ∷ (r.path ++ line)),
      length-append r.path line,
      length-append (codes " HTTP/1.1") (13 ∷ 10 ∷ rest),
      length-append (header_lines r.headers) body,
      length-header_lines r.headers,
    )

marshal_body-nonempty : (b : PacketBody) → 0 < length (marshal_body b)
unfolding marshal_body object
marshal_body-nonempty b = omega arith

-- A body fits only if the margin stays free.
fits-margin :
    (f : Frame) (b : PacketBody)
    → fits f b ≡ true
    → f.request_line_bytes + f.header_bytes + length (marshal_body b)
      ≤ max_envelope_bytes - safety_margin_bytes
unfolding fits
fits-margin f b h = ground (arith, marshal_body-nonempty b)

-- What is true of an accepted packet.
abbrev pub WithinBudget : Request → Assembled → Type 0
WithinBudget r (accepted p) =
    (p.body_json ≡ marshal_body p.body)
    × (p.measurement.envelope_bytes ≡ length (wire (normalize_request r) p.body_json))
    × (length (wire (normalize_request r) p.body_json) ≤ max_envelope_bytes - safety_margin_bytes)
WithinBudget r (rejected p) = Unit

within :
    (r : Request) (a : Assembled)
    → Chosen (frame_of (normalize_request r)) (λ b. Unit {0}) a
    → WithinBudget r a
unfolding packet_of
within r (rejected p) h = tt
within r (accepted p) (status, b, e, _, fit) =
    let n = normalize_request r in
    rw e (
      refl,
      sym (length-wire n (marshal_body b)),
      rw (length-wire n (marshal_body b)) (fits-margin (frame_of n) b fit),
    )

All-Unit : (cs : List Candidate) → All (λ c. Unit {0}) cs
All-Unit [] = tt
All-Unit (c ∷ cs) = (tt, All-Unit cs)

-- An accepted packet carries the JSON of its body; its envelope measure is the exact length of the
-- request line, the headers and the body as they are sent, and that length leaves the safety margin
-- of the 14336 bytes free.
pub accepted_within_budget :
    (r : Request) (p : Packet)
    → assemble r ≡ accepted p
    → (p.body_json ≡ marshal_body p.body)
      × (p.measurement.envelope_bytes ≡ length (wire (normalize_request r) p.body_json))
      × (length (wire (normalize_request r) p.body_json) + 768 ≤ 14336)
accepted_within_budget r p h =
    let w =
      within r (assemble r)
        (assemble-Chosen (λ b. Unit {0}) r (All-Unit (candidates_of (normalize_request r)))) in
    let (json, exact, room) = subst (WithinBudget r) h w in (json, exact, omega arith)
