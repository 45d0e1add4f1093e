-- ===== src/Runtime/Extract.antt =====
-- `extract_matching_frames` of src/runtime.rs, behind the opening of the files. The state is the new
-- capture: the packets that were written to it, in order. A write that fails is left out.
pub mod Agree
use tracescript.Prelude.{
  ℕ, ◌+◌, Bool, true, false, ◌||◌, List, [], ◌∷◌, ◌++◌, Option, none, some, Text, ℤ, pos,
}
use tracescript.Value.{Platform}
use tracescript.Result.{Result}
use tracescript.Machine.{Run, done, pure, ◌>>=◌, lift}
use tracescript.Packet.{Bytes}
use tracescript.Filter.{Filter}
use tracescript.Runtime.Messages.{Event}
use tracescript.Runtime.Frame.{decode_frame, event_matches_grep}

-- a packet as the reader gives it and the writer takes it
pub record RawPacket : Type 0 where
  pub ts_sec : ℕ
  pub ts_nsec : ℕ
  pub data_ : Bytes
  pub orig_len : ℕ

-- `events.iter().any(|ev| event_matches_grep(ev, needle))`
unfoldable pub any_matches : Platform → Text → List Event → Bool
unfolding event_matches_grep
any_matches pf needle [] = false
any_matches pf needle (e ∷ es) = event_matches_grep pf e needle || any_matches pf needle es

abbrev passes_grep : Platform → Option Text → List Event → Bool
passes_grep pf none es = true
passes_grep pf (some needle) es = any_matches pf needle es

-- whether a frame with these events is written
unfoldable pub is_written : Platform → Option Text → List Event → Bool
unfolding any_matches
is_written pf grep [] = false
is_written pf grep (e ∷ es) = passes_grep pf grep (e ∷ es)

-- the loop over the packets; the number is `written`
unfoldable pub extract_frames :
    Platform → Option Filter → Option Text → List (Result RawPacket) → ℕ → Run (List RawPacket) ℕ
unfolding decode_frame is_written
extract_frames pf filter grep [] n = pure n
extract_frames pf filter grep (r ∷ rs) n = do
  p ← lift r
  events ← lift (decode_frame pf p.data_ (pos p.ts_sec) filter)
  λ out. elim (is_written pf grep events) [
    | true ↦ extract_frames pf filter grep rs (n + 1) (out ++ p ∷ [])
    | false ↦ extract_frames pf filter grep rs n out
  ]
