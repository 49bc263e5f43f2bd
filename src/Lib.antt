-- ===== src/Lib.antt =====
-- upguardly-server: an uptime-monitoring service. Users and organizations own monitors, a plan says
-- what a monitor may use, Stripe says which plan is paid for, and schedulers in several regions check
-- the monitors and send alerts.
--
-- How the parts stand to the code:
-- - Base: Boolean tests, Go's int as an integer (ℤ), lists, Go maps as association lists, and
--   fallible code as a Result.
-- - Models: internal/models. Plan (plan.go: limits_for_plan is LimitsForPlan, effective_interval is
--   EffectiveInterval), Role (organization.go), Expiry (expiry.go), Region (region.go and
--   NormalizeRegions), Monitor (monitor.go: the requests and their Validate methods).
-- - Database: internal/database/bun. `Db` holds the tables; Monitors has the statements on monitors,
--   Reconcile has ReconcileMonitorsToPlan as five passes over the table, Subscriptions the upsert,
--   Members the members, the invitations and the seats, Invitations the other statements on
--   invitations, Organizations and Recipients the organizations and their alert recipients, Channels
--   the notification channels and the settings of a monitor (all store.go). The unique indices of
--   the migrations, and what their foreign keys do to these tables when a row is deleted, are part of
--   the statements that meet them.
-- - Handlers: internal/api/handlers. `Store` is the interface that the monitor handlers use, and Bun
--   its instance over the tables. Limits (limits.go), Regions (regions.go), Settings and CreateMonitor
--   and UpdateMonitor (monitors.go), Subscriptions (subscriptions.go), Members (members.go and
--   internal/api/middleware/org_auth.go), Targets (validation.go), Channels and MonitorChannels
--   (notification_channels.go), Invitations (invitations.go), Organizations (organizations.go),
--   Recipients (alert_recipients.go). A handler returns the new state with a value or a Refusal,
--   which is the HTTP status and the reason.
-- - Coordination: internal/coordination. Partition (partition.go) and Coordinator (coordinator.go: the
--   view of the membership and the channel of its events).
-- - Scheduler: internal/scheduler. Jobs (scheduler.go), Distributed (distributed.go), Results (the
--   batching writer of runner.go), Dispatcher (dispatcher.go), Expiry with its Sweep (expiry.go) and
--   Verifier (verifier.go), the last three with their statements in
--   internal/database/bun/store_scheduler.go.
-- - Middleware: internal/api/middleware/ratelimit.go.
-- - Tests: runs on a small deployment.
--
-- How they interact: CreateMonitor and UpdateMonitor check a request against the plan of whoever pays
-- and hand it to the store; a Stripe event moves the plan and reconciles the monitors with it; the
-- schedulers read the monitors, each instance those of its partitions, which follow the membership that
-- the coordinator lists; an invitation is sent under the seats of the owner's plan and accepted under
-- them again; the channels of an organization's monitor are those of its owner.
--
-- Bounds and fuel: two loops run on fuel. notify_loop drops one pending event in each turn, so one
-- turn more than there are pending events is enough; the verifier's drain claims fifty requests in
-- each round but the last, so one round more than there are waiting requests is. Every other
-- function is structural recursion. Go's int is an integer without bounds where the code only
-- compares and adds small numbers; the partition of a monitor is computed in wrapping int32
-- arithmetic, as the code does. Times are numbers; ExpiryDaysLeft divides floats in the code and
-- exactly here.
--
-- Not modelled: HTTP binding and JSON, authentication, configuration and set-up, statistics and
-- uptime, maintenance windows, the account context of /me, masked targets in the lists of channels,
-- the checkers and the alert providers (network I/O), the etcd client, the SQL functions of the
-- migrations, metrics and logs. Parameters stand for md5 and the hash of a token, for the SSRF
-- check of a target and of a webhook's URL, for the comparison of email addresses and the account's
-- email, for Stripe's and etcd's answers, for the outcomes of the checks, and for the outcomes of
-- database calls that can fail.
pub mod Base
pub mod Models
pub mod Database
pub mod Handlers
pub mod Coordination
pub mod Scheduler
pub mod Middleware
pub mod Tests
