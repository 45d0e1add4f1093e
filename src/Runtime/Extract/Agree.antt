-- ===== src/Runtime/Extract/Agree.antt =====
-- The frames that src/runtime.rs extracts, and those whose events a run dispatches.
use mathlib.Core.List.{append_assoc, append-nil}
use tracescript.Prelude.{
  ℕ, suc, ◌≡◌, refl, sym, ◌∙◌, ◌+◌, Bool, true, false, not, List, [], ◌∷◌, ◌++◌, Option, none, some,
  Text, pos, map, length, ◌==◌, if◌then◌else◌, arith, Bool-cases, inl, inr,
}
use tracescript.Value.{Platform}
use tracescript.Result.{Result, ok}
use tracescript.Machine.{Run, Ran, done, stop}
use tracescript.Filter.{Filter}
use tracescript.Runtime.Messages.{Event}
use tracescript.Runtime.Frame.{decode_frame, event_matches_grep}
use tracescript.Runtime.Total.{decode_frame-total}
use tracescript.Runtime.{dispatch_all, run_packets, is_wanted}
use tracescript.Runtime.Extract.{RawPacket, any_matches, is_written, extract_frames}

-- an engine that only counts the events it is given
abbrev tally : Event → Run ℕ (Unit {0})
tally e n = done tt (n + 1)

abbrev is_positive : Ran ℕ ℕ → Bool
is_positive (done n s) = not (s == 0)
is_positive (stop e s) = false

-- A run over the packet alone dispatches an event.
unfoldable pub is_dispatched : Platform → Option Filter → Option Text → RawPacket → Bool
is_dispatched pf filter grep p =
    is_positive (run_packets tally pf filter grep (ok (pos p.ts_sec, p.data_) ∷ []) 0 0)

unfoldable pub selected : (RawPacket → Bool) → List RawPacket → List RawPacket
selected f [] = []
selected f (p ∷ ps) = let later = selected f ps in if f p then p ∷ later else later

-- the number of the events that are wanted
wanted : Platform → Option Text → List Event → ℕ
wanted pf grep [] = 0
wanted pf grep (e ∷ es) =
    let later = wanted pf grep es in if is_wanted tally pf grep e then suc later else later

done_eq : {S : Type 0} {a c : ℕ} {b d : S} → a ≡ c → b ≡ d → done a b ≡ done c d
done_eq h k = rw (h, k) refl

dispatch_all-tally :
    (pf : Platform) (grep : Option Text) (es : List Event) (n s : ℕ)
    → dispatch_all tally pf grep es n s ≡ done (n + wanted pf grep es) (s + wanted pf grep es)
unfolding dispatch_all wanted
dispatch_all-tally pf grep [] n s = done_eq (omega arith) (omega arith)
dispatch_all-tally pf grep (e ∷ es) n s = elim (Bool-cases (is_wanted tally pf grep e)) [
  | inl t ↦
      rw (t, dispatch_all, wanted)
        (dispatch_all-tally pf grep es (n + 1) (s + 1) ∙ done_eq (omega arith) (omega arith))
  | inr t ↦ rw (t, dispatch_all, wanted) (dispatch_all-tally pf grep es n s)
]

any_matches-wanted :
    (pf : Platform) (needle : Text) (es : List Event)
    → any_matches pf needle es ≡ not (wanted pf (some needle) es == 0)
unfolding any_matches wanted
any_matches-wanted pf needle [] = refl
any_matches-wanted pf needle (e ∷ es) = elim (Bool-cases (event_matches_grep pf e needle)) [
  | inl t ↦ rw (t, any_matches, wanted) (ground arith)
  | inr t ↦ rw (t, any_matches, wanted) (any_matches-wanted pf needle es)
]

is_written-wanted :
    (pf : Platform) (grep : Option Text) (es : List Event)
    → is_written pf grep es ≡ not (wanted pf grep es == 0)
unfolding is_written wanted
is_written-wanted pf grep [] = refl
is_written-wanted pf none (e ∷ es) = ground arith
is_written-wanted pf (some needle) (e ∷ es) = any_matches-wanted pf needle (e ∷ es)

is_dispatched-is_written :
    (pf : Platform) (filter : Option Filter) (grep : Option Text) (p : RawPacket) (es : List Event)
    → decode_frame pf p.data_ (pos p.ts_sec) filter ≡ ok es
    → is_dispatched pf filter grep p ≡ is_written pf grep es
unfolding is_dispatched run_packets
is_dispatched-is_written pf filter grep p es h =
    rw (h, is_dispatched, run_packets)
      (rw (dispatch_all-tally pf grep es 0 0) (rw (is_written-wanted pf grep es) (ground arith)))

extract_frames-round :
    (pf : Platform) (filter : Option Filter) (grep : Option Text) (p : RawPacket)
    (rs : List (Result RawPacket)) (n : ℕ) (out : List RawPacket) (es : List Event)
    → decode_frame pf p.data_ (pos p.ts_sec) filter ≡ ok es
    → extract_frames pf filter grep (ok p ∷ rs) n out ≡ elim (is_written pf grep es) [
      | true ↦ extract_frames pf filter grep rs (n + 1) (out ++ p ∷ [])
      | false ↦ extract_frames pf filter grep rs n out
    ]
unfolding extract_frames
extract_frames-round pf filter grep p rs n out es h = rw (h, extract_frames) refl

-- Extraction writes, unchanged and in order, the packets over which a run dispatches an event, and
-- returns their number.
pub extract_frames-selected :
    (pf : Platform) (filter : Option Filter) (grep : Option Text) (ps : List RawPacket) (n : ℕ)
    (out : List RawPacket)
    → extract_frames pf filter grep (map (λ p. ok p) ps) n out
      ≡ done
          (n + length (selected (is_dispatched pf filter grep) ps))
          (out ++ selected (is_dispatched pf filter grep) ps)
unfolding extract_frames selected
extract_frames-selected pf filter grep [] n out = done_eq (omega arith) (sym (append-nil out))
extract_frames-selected pf filter grep (p ∷ ps) n out =
    let (es, h) = decode_frame-total pf p.data_ (pos p.ts_sec) filter in
    let w = is_dispatched-is_written pf filter grep p es h in
    let round = extract_frames-round pf filter grep p (map (λ q. ok q) ps) n out es h in
    elim (Bool-cases (is_dispatched pf filter grep p)) [
      | inl t ↦
          let v : is_written pf grep es ≡ true = sym w ∙ t in
          round
          ∙ rw v (
              rw (t, selected)
                (extract_frames-selected pf filter grep ps (n + 1) (out ++ p ∷ [])
                  ∙ done_eq (omega arith)
                      (append_assoc out (p ∷ []) (selected (is_dispatched pf filter grep) ps))))
      | inr t ↦
          let v : is_written pf grep es ≡ false = sym w ∙ t in
          round ∙ rw v (rw (t, selected) (extract_frames-selected pf filter grep ps n out))
    ]
