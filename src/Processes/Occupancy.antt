-- ===== src/Processes/Occupancy.antt =====
-- occupancy.py: pairing the transitions of a GPU's processes into intervals, and merging intervals.
-- The parser of timestamps is a parameter.
use mathlib.Core.Option
use mocop.Base.{
  ℕ, suc, String, Bool, ◌&&◌, ◌||◌, Option, none, some, List, [], ◌∷◌, ◌++◌, if◌then◌else◌,
  string_key, ◌==◌, or_else,
}
use mocop.Base.Int.{Float, ltb_ℤ, leb_ℤ, pos}
use mocop.Base.Dict.{Dict, get, put, remove, has}
use mocop.Base.Sort.{sort_by}
use mocop.Models.{GpuProcess}
use mocop.Processes.Types.{
  Value, text, Workload, to_dict, GpuProcessTransition, ProcessKey, process_key, key_of,
}

pub record Interval : Type 0 where
  pub start : Float
  pub end : Float
  pub owner : Option String
  pub kind : String
  pub sampled_seconds : Float
  pub idle_seconds : Float

-- A value that is a text and not empty.
abbrev some_text : Option Value → Option String
some_text (some (text s)) = if s == "" then none else some s
some_text _ = none

unfoldable pub attribution : Option Workload → Option String × String
attribution none = (none, "process")
attribution (some workload) =
    (some_text (get workload "owner"), or_else (some_text (get workload "kind")) "process")

abbrev pub max_ℤ : Float → Float → Float
max_ℤ a b = if leb_ℤ b a then a else b

abbrev pub min_ℤ : Float → Float → Float
min_ℤ a b = if leb_ℤ a b then a else b

-- What the loops of `pair_intervals` change.
pub record Pairing : Type 0 where
  pub intervals : List Interval
  pub dropped : ℕ
  pub earliest : Option Float
  pub open_processes : Dict ProcessKey (Float × Option Workload)

-- `opened[1] or event.workload`: an empty dictionary counts as missing.
abbrev or_workload : Option Workload → Option Workload → Option Workload
or_workload none other = other
or_workload (some []) other = other
or_workload (some workload) other = some workload

module _ (epoch_seconds : Option String → Option Float) (window_start now_epoch : Float) where
  -- The nested function `close`.
  unfoldable pub close : Float → Float → Option Workload → Pairing → Pairing
  close start end workload p =
      let clipped_start = max_ℤ start window_start in
      let clipped_end = min_ℤ end now_epoch in
      let (owner, kind) = attribution workload in
      if leb_ℤ clipped_end clipped_start then p else record p {
        intervals =
            p.intervals
            ++ (record {
              start = clipped_start;
              end = clipped_end;
              owner = owner;
              kind = kind;
              sampled_seconds = pos 0;
              idle_seconds = pos 0;
            })
              ∷ [];
      }

  abbrev pub drop_one : Pairing → Pairing
  drop_one p = record p { dropped = suc p.dropped }

  unfoldable pub note_earliest : Float → Pairing → Pairing
  note_earliest observed p = record p {
    earliest = some (elim p.earliest [
      | none ↦ observed
      | some earliest ↦ if ltb_ℤ observed earliest then observed else earliest
    ]);
  }

  -- `close` of a run that was open, if there was one.
  unfoldable pub close_previous : Option (Float × Option Workload) → Float → Pairing → Pairing
  close_previous none observed p = p
  close_previous (some (started, workload)) observed p = close started observed workload p

  unfoldable pub on_started : GpuProcessTransition → Float → Pairing → Pairing
  on_started event observed p =
      let key = key_of event in
      let closed = close_previous (get p.open_processes key) observed p in
      record closed {
        open_processes = put (remove closed.open_processes key) key (observed, event.workload);
      }

  -- A stop whose start has left the window.
  unfoldable pub on_unmatched : GpuProcessTransition → Float → Option Float → Pairing → Pairing
  on_unmatched event observed none p = drop_one p
  on_unmatched event observed (some anchored) p =
      if leb_ℤ anchored observed
      then close anchored observed event.workload (note_earliest anchored p)
      else drop_one p

  unfoldable pub on_stopped :
      GpuProcessTransition → Float → Option (Float × Option Workload) → Pairing → Pairing
  on_stopped event observed (some (started, workload)) p =
      close started observed (or_workload workload event.workload)
        (record p { open_processes = remove p.open_processes (key_of event) })
  on_stopped event observed none p =
      on_unmatched event observed (epoch_seconds event.first_seen_at) p

  -- One round of the first loop, with the parsed time of the event.
  unfoldable pub on_event : GpuProcessTransition → Option Float → Pairing → Pairing
  on_event event none p = drop_one p
  on_event event (some observed) p =
      let p = note_earliest observed p in
      if event.event == "started"
      then on_started event observed p
      else on_stopped event observed (get p.open_processes (key_of event)) p

  unfoldable pub on_events : List GpuProcessTransition → Pairing → Pairing
  on_events [] p = p
  on_events (event ∷ events) p =
      on_events events (on_event event (epoch_seconds (some event.observed_at)) p)

  module _ (active_processes : Dict ProcessKey GpuProcess) (active_until : Float) where
    -- The second loop, over the runs left open.
    unfoldable pub close_open : Dict ProcessKey (Float × Option Workload) → Pairing → Pairing
    close_open [] p = p
    close_open ((key, (started, workload)) ∷ rest) p =
        close_open rest
          (if has active_processes key then close started active_until workload p else drop_one p)

    -- One round of the third loop, for a process without an open run.
    unfoldable pub close_seeded : GpuProcess → Option Float → Pairing → Pairing
    close_seeded process none p = drop_one p
    close_seeded process (some anchored) p =
        close anchored active_until (Option.map to_dict process.workload) p

    -- The third loop, over the live processes.
    unfoldable pub close_live : Dict ProcessKey GpuProcess → Pairing → Pairing
    close_live [] p = p
    close_live ((key, process) ∷ rest) p = close_live rest (
        if has p.open_processes key
        then p
        else close_seeded process (epoch_seconds process.first_seen_at) p)

  unfoldable pub pair_intervals :
      List GpuProcessTransition
      → Dict ProcessKey GpuProcess
      → Option Float
      → List Interval × ℕ × Option Float
  pair_intervals events active_processes observed_until =
      let active_until : Float = elim observed_until [
        | none ↦ now_epoch
        | some until ↦ min_ℤ now_epoch until
      ] in
      let start : Pairing = record {
        intervals = [];
        dropped = 0;
        earliest = none;
        open_processes = [];
      } in
      let p = on_events events start in
      let p = close_open active_processes active_until p.open_processes p in
      let p = close_live active_processes active_until active_processes p in
      (p.intervals, p.dropped, p.earliest)

abbrev pub interval_leb : Interval → Interval → Bool
interval_leb a b = ltb_ℤ a.start b.start || (leb_ℤ a.start b.start && leb_ℤ a.end b.end)

-- The loop of `merge_intervals`, with the last interval of `merged`.
unfoldable pub merge_from : Interval → List Interval → List Interval
merge_from last [] = last ∷ []
merge_from last (interval ∷ rest) =
    let joined = leb_ℤ interval.start last.end in
    let next : Interval =
      if joined
      then record last { end = max_ℤ last.end interval.end }
      else record interval { sampled_seconds = pos 0; idle_seconds = pos 0 } in
    let merged = merge_from next rest in if joined then merged else last ∷ merged

unfoldable pub merge_sorted : List Interval → List Interval
merge_sorted [] = []
merge_sorted (interval ∷ rest) =
    merge_from (record interval { sampled_seconds = pos 0; idle_seconds = pos 0 }) rest

unfoldable pub merge_intervals : List Interval → List Interval
merge_intervals intervals = merge_sorted (sort_by interval_leb intervals)
