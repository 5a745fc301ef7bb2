-- ===== src/Telemetry/RoundTrip.antt =====
-- Restoring what was stored.
use mocop.Base.{
  ◌^◌, ◌<◌, String, ◌≡◌, refl, Bool, true, false, Option, none, some, arith, ltb, if◌then◌else◌,
  string_key,
}
use mocop.Base.Int.{Float}
use mocop.Base.Dict.{get}
use mocop.Processes.Types.{Workload, GpuProcessTransition}
use mocop.Telemetry.Json.{
  Double, nan, finite, bool, Conversions, optional_float, packed_optional_float, float_of_bool,
  truthy_double, unpacked_optional_float,
}
use mocop.Telemetry.Points.{
  GpuHistoryPoint, create_host, host_from_dict, host_to_dict, create_gpu, gpu_from_dict,
  gpu_to_dict, transition_from_dict, persistence_dict, transition_to_dict, finite_only,
  float_or_null, as_workload, workload_or_null, as_text, text_or_null, not_hidden,
}

module _ (c : Conversions) where
  unpacked-packed :
      (d : Double) → packed_optional_float (optional_float c (some (unpacked_optional_float d))) ≡ d
  unpacked-packed nan = refl
  unpacked-packed (finite x) = refl

  retried_again : 0 < c.unit → (b : Bool) → truthy_double (float_of_bool c b) ≡ b
  retried_again h true = ground arith
  retried_again h false = ground arith

  -- What to_dict makes of a host point is read back as the same point, if 1.0 is not 0.0.
  pub host_from_dict-host_to_dict :
      (at : String) (cpu : Option Double) (memory swap disk : Double)
      (rx tx read write gpu gpu_memory temperature : Option Double) (retried : Bool)
      → 0 < c.unit
      → host_from_dict c (
          host_to_dict c (
            create_host c at cpu memory swap disk rx tx read write gpu gpu_memory temperature
              retried))
        ≡ some (
            create_host c at cpu memory swap disk rx tx read write gpu gpu_memory temperature
              retried)
  unfolding host_from_dict host_to_dict create_host get
  host_from_dict-host_to_dict at cpu memory swap disk rx tx read write gpu gpu_memory temperature
        retried h =
      rw
        (
          unpacked-packed (packed_optional_float cpu),
          unpacked-packed (packed_optional_float rx),
          unpacked-packed (packed_optional_float tx),
          unpacked-packed (packed_optional_float read),
          unpacked-packed (packed_optional_float write),
          unpacked-packed (packed_optional_float gpu),
          unpacked-packed (packed_optional_float gpu_memory),
          unpacked-packed (packed_optional_float temperature),
          retried_again h retried,
        )
        refl

  -- What to_dict makes of a GPU point is read back as the same point if its index fits 32 bits with a
  -- sign, and raises if it does not.
  pub gpu_from_dict-gpu_to_dict :
      (gpu_id : String) (point : GpuHistoryPoint)
      → gpu_from_dict c (gpu_to_dict c gpu_id point)
        ≡ (if ltb point.values.index (2 ^ 31) then some point else none)
  unfolding gpu_from_dict gpu_to_dict create_gpu get
  gpu_from_dict-gpu_to_dict gpu_id point =
      let v = point.values in
      rw
        (
          unpacked-packed v.utilization_gpu_pct,
          unpacked-packed v.memory_used_mib,
          unpacked-packed v.memory_total_mib,
          unpacked-packed v.temperature_c,
          unpacked-packed v.power_draw_w,
        )
        refl

  memory_again :
      (o : Option Float) → finite_only c (optional_float c (some (float_or_null c o))) ≡ o
  memory_again none = refl
  memory_again (some x) = refl

  workload_again : (o : Option Workload) → as_workload c (some (workload_or_null c o)) ≡ o
  workload_again none = refl
  workload_again (some w) = refl

  text_again : (o : Option String) → as_text c (some (text_or_null c o)) ≡ o
  text_again none = refl
  text_again (some s) = refl

  visible_again : (b : Bool) → not_hidden c (some (bool b)) ≡ b
  visible_again true = refl
  visible_again false = refl

  -- A transition is read back from what is stored of it, and from what is served of it as a visible one.
  pub transition_from_dict-persistence_dict :
      (event : GpuProcessTransition)
      → (transition_from_dict c (persistence_dict c event) ≡ some event)
        × (transition_from_dict c (transition_to_dict c event)
            ≡ some (record event { visible = true }))
  unfolding transition_from_dict persistence_dict transition_to_dict get
  transition_from_dict-persistence_dict event = (
    rw
        (
          memory_again event.used_memory_mib,
          workload_again event.workload,
          text_again event.first_seen_at,
          visible_again event.visible,
        )
        refl,
    rw
        (
          memory_again event.used_memory_mib,
          workload_again event.workload,
          text_again event.first_seen_at,
        )
        refl,
  )
