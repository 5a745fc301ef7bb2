-- ===== src/Lib.antt =====
-- Mocop monitors GPU hosts over SSH. This library models the logic of its server (src/mocop):
-- what is made of the samples once they are parsed, up to the delivery of the incident events.
--
-- Parts, and how they interact. A probe of a host yields a ProbeResult (Models, for
-- src/mocop/models.py). The threshold policy derives from it the conditions that it shows and the
-- telemetry that it carries (Incidents.Policy, for ThresholdIncidentPolicy of
-- src/mocop/incidents.py and src/mocop/incident_health.py). The incident tracker confirms, opens,
-- escalates, holds and resolves incidents over the samples, per host and condition
-- (Incidents.Tracker, for IncidentTracker of src/mocop/incidents.py; the vocabulary is
-- Incidents.Types, for src/mocop/incident_types.py, and the telemetry that a recovery needs is
-- Incidents.Domains, for src/mocop/incident_domains.py). Processes.Transitions is
-- src/mocop/process_transitions.py, on the records of Processes.Types, and Processes.Occupancy is
-- src/mocop/occupancy.py. Fleet holds the components without a state: Fleet.Ssh for
-- src/mocop/ssh_failures.py, Fleet.Maintenance for src/mocop/maintenance.py, Fleet.Capacity for
-- src/mocop/capacity.py and Fleet.Correlation for src/mocop/correlation.py, on which
-- Fleet.Densest, Fleet.Table, Fleet.Loss and Fleet.Composite build. Scheduler.Control,
-- Scheduler.Backoff and Scheduler.Rebase are the parts of src/mocop/service_scheduler.py that
-- keep tables: the requests for a probe, the delays after failures, and the move of the retries
-- when an interval changes (Scheduler.Settled has a pass of that move as a whole, with
-- Scheduler.Instant for the instant of the failure, and Scheduler.Cooldown follows the requests
-- over what happens to them in the run loop); Scheduler.Batches is what its run loop keeps of the
-- probes in flight and their batches. Telemetry is src/mocop/telemetry_points.py: the points, and
-- how they are rendered and restored (Telemetry.Json and Telemetry.Points). Store is the part of
-- StateStore of src/mocop/service.py that keeps a GPU's history and processes: Store.Slot for
-- _track_gpu_telemetry_locked and _close_unobservable_inventory_locked, Store.Close for
-- _close_restored_inventory_locked and _invalidate_process_inventory_locked, and Store.Hosts for
-- the monitored hosts (set_hosts, begin_poll, reschedule_retry, and the results that apply
-- takes). Notifications is src/mocop/notifications.py: Notifications.Worker and
-- Notifications.Delivery for _WebhookWorker, Notifications.Sink for WebhookNotificationSink, and
-- Notifications.Runs for what happens to a worker over time. Base has what all share.
--
-- State and operations. Incidents.Tracker.State has the tracker's dictionaries as association
-- lists (Base.Dict) in the record Tracker, and Incidents.Tracker.Update has update and its loops,
-- one function for the body of each. Incidents.Tracker.Lifecycle is the constructor and
-- Incidents.Tracker.Removal the removal of hosts and the queries. A KeyError is none.
-- Incidents.Tracker.Phase and Incidents.Tracker.Refine describe the same behaviour for one
-- condition alone, as the abstract machine that update refines. The store's dictionaries with the
-- same key, a host and a GPU, are one record Slot per key, and a sample is processed one GPU at a
-- time (observe_gpu). A worker's life is a list of actions, each of them atomic, among them one
-- round of its thread; what the outside does in an attempt to deliver is a record (Attempt). The
-- policy's blocks are Incidents.Policy.Conditions, Host and Device, each from the dictionary so
-- far to the one after it; its caches and overrides are Incidents.Policy.Overrides.
--
-- Parameters. The parser of timestamps (epoch_seconds of src/mocop/models.py) and the order in
-- which Python walks a set are parameters (Runtime), and so are the float operations that round
-- where a result depends on it (Arithmetic, the division in Limits, and in Scheduler the jitter,
-- the sums and the differences: Delays, and the difference that request_probe takes), and what
-- int, float and str make of values that a rendering never yields (Conversions). A finite float
-- is an integer count of a unit that is small enough (Base.Int). The sums and differences that
-- are left are taken as exact. The tracker takes the policy by the interface IncidentPolicy. An
-- instant of Fleet.Maintenance is the number of microseconds since the start of year 1, a Monday,
-- which is where Python's datetime begins. Whether the active maintenance windows have changed
-- since the last look is an argument of what Store.Hosts publishes. Lower case is that of ASCII.
-- The 30 seconds between two tests are a parameter, since the unit of the clock is not fixed. The
-- index of a GPU fits its packed form in Store.Slot; Telemetry.Points has the error of one that
-- does not.
--
-- Fuel. Only str_nat of Base.Text runs on fuel, one more than the number that it prints, and a
-- number has no more digits than that. Every loop of the program is structural recursion on the
-- list that it walks, or on the number of attempts that are left.
--
-- Not modelled: threads and locks, SSH and HTTP, SQLite, the configuration files, the renderings
-- to JSON but those of the points, the eviction of the oldest GPU identities of a host, the rest
-- of apply in src/mocop/service.py, and the browser's code.
pub mod Base
pub mod Models
pub mod Incidents
pub mod Processes
pub mod Fleet
pub mod Scheduler
pub mod Telemetry
pub mod Store
pub mod Notifications
