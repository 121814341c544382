-- ===== src/Dashboard/App/Refresh.antt =====
-- The event log of a dashboard that is refreshed while its telemetry file grows.
use wow_server_sim.Common.{
  ℕ, ◌+◌, true, ◌≤◌, ◌<◌, ◌≡◌, refl, sym, ap, ◌∙◌, String, Bool, Option, none, some, List, [], ◌∷◌,
  ◌++◌, length, All, take_last, take_last-append, take_last_split,
}
use mathlib.Core.List.{append-nil, append_assoc}
use mathlib.Core.Path.{subst}
use wow_server_sim.Float.{Float}
use wow_server_sim.Effects.{Env, Session, got, ok}
use wow_server_sim.Health.Report.{check_server_reachable}
use wow_server_sim.Models.{TelemetryEntry}
use wow_server_sim.Logs.Parse.{parse_stream, recent_entries}
use wow_server_sim.Logs.Parse.Stream.{parse_stream-append}
use wow_server_sim.Dashboard.Tail.{filter_new_entries}
use wow_server_sim.Dashboard.Tail.Watch.{
  earlier, latest, Before, Before-append, Before-mono, latest-Before, All-weaken, All-zero,
  All-right, latest-append, shown-new, first_poll,
}
use wow_server_sim.Common.Sort.{IsSorted}
use wow_server_sim.Dashboard.Catalog.{DashboardConfig}
use wow_server_sim.Dashboard.App.{App, new_app, append_log, show_health, update_health_ui}
use wow_server_sim.Dashboard.App.EventLog.{
  lines_of, lines_of-append, append_log_lines, append_log_mark, append_log_newest,
}
use wow_server_sim.Dashboard.App.Workers.{done, health_data, fetch_health_data}

module _ {R : Type 0} ⦃fl : Float R⦄ (decode : String → Option (TelemetryEntry R)) where
  -- A refresh that is not overtaken by another: the worker reads the newest 500 lines of the log
  -- and filters their entries by the watermark that the app has, and the app shows the rest.
  abbrev pub refresh : (reachable : Bool) (lines : List String) → App R → App R
  refresh reachable lines app =
      update_health_ui (health_data (recent_entries decode 500 lines) reachable app.last_entry_ts)
        app

  -- Refreshes of a log that grows by a batch of lines before each.
  abbrev pub refreshes : App R → (log : List String) → List (Bool × List String) → App R
  refreshes app log [] = app
  refreshes app log ((reachable, batch) ∷ polls) =
      refreshes (refresh reachable (log ++ batch) app) (log ++ batch) polls

  -- The entries of all batches.
  abbrev pub all_of : List (Bool × List String) → List (TelemetryEntry R)
  all_of [] = []
  all_of (p ∷ polls) = parse_stream decode p.1 ++ all_of polls

  -- Every batch has at most 500 lines, and its entries are in order of time and strictly later than
  -- what stands before them.
  abbrev pub Follows : ℕ → List (Bool × List String) → Type 0
  Follows t [] = Unit
  Follows t (p ∷ polls) =
      (length p.1 ≤ 500)
      × IsSorted earlier (parse_stream decode p.1)
      × All (λ x. t < x.timestamp) (parse_stream decode p.1)
      × Follows (latest t (parse_stream decode p.1)) polls

  refresh_lines :
      (reachable : Bool) (lines : List String) (app : App R)
      → (refresh reachable lines app).event_log
        ≡ app.event_log
          ++ lines_of (filter_new_entries (recent_entries decode 500 lines) app.last_entry_ts).0
  unfolding update_health_ui show_health health_data
  refresh_lines reachable lines app =
      append_log_lines _ _ (
        show_health (health_data (recent_entries decode 500 lines) reachable app.last_entry_ts) app)

  -- What is read of a log that has grown by at most 500 lines: its new entries, behind older ones.
  recent_entries-batch :
      (log batch : List String)
      → length batch ≤ 500
      → (left pre : List (TelemetryEntry R)) × (left ++ pre ≡ parse_stream decode log)
        × (recent_entries decode 500 (log ++ batch) ≡ pre ++ parse_stream decode batch)
  unfolding recent_entries
  recent_entries-batch log batch h =
      let (left, pre, split, read) = take_last-append 499 log batch h in
      (
        parse_stream decode left,
        parse_stream decode pre,
        sym (parse_stream-append decode left pre) ∙ ap (parse_stream decode) split,
        ap (parse_stream decode) read ∙ parse_stream-append decode pre batch,
      )

  -- A refresh after a batch shows the entries of the batch, and moves the watermark to their end.
  refresh-batch :
      (t : ℕ) (reachable : Bool) (log batch : List String) (app : App R)
      → app.last_entry_ts ≡ some t
      → Before t (parse_stream decode log)
      → length batch ≤ 500
      → All (λ x. t < x.timestamp) (parse_stream decode batch)
      → let next = refresh reachable (log ++ batch) app in
        (next.event_log ≡ app.event_log ++ lines_of (parse_stream decode batch))
        × (next.last_entry_ts ≡ some (latest t (parse_stream decode batch)))
  unfolding update_health_ui show_health health_data
  refresh-batch t reachable log batch app mark before short later =
      let new = parse_stream decode batch in
      let lines = log ++ batch in
      let (left, pre, split, read) = recent_entries-batch log batch short in
      let old =
        All-right (λ x. x.timestamp ≤ t) left pre (subst (λ l. Before t l) (sym split) before) in
      let filtered : filter_new_entries (recent_entries decode 500 lines) app.last_entry_ts
          ≡ filter_new_entries (pre ++ new) (some t) =
        ap (λ l. filter_new_entries l app.last_entry_ts) read
        ∙ ap (filter_new_entries (pre ++ new)) mark in
      let (shown, moved) = shown-new t pre new old later in
      let base =
        show_health (health_data (recent_entries decode 500 lines) reachable app.last_entry_ts)
          app in
      (
        refresh_lines reachable lines app
            ∙ ap (λ l. app.event_log ++ lines_of l) (ap (λ p. p.0) filtered ∙ shown),
        ap (λ p. (append_log p.0 p.1 base).last_entry_ts) filtered
            ∙ ap
                (λ l.
                  (append_log l (filter_new_entries (pre ++ new) (some t)).1 base).last_entry_ts)
                shown
            ∙ append_log_mark t new _ base mark moved,
      )

  refreshes-batches :
      (t : ℕ) (app : App R) (log : List String) (polls : List (Bool × List String))
      → app.last_entry_ts ≡ some t
      → Before t (parse_stream decode log)
      → Follows t polls
      → (refreshes app log polls).event_log ≡ app.event_log ++ lines_of (all_of polls)
  refreshes-batches t app log [] mark before follows = sym (append-nil app.event_log)
  refreshes-batches t app log ((reachable, batch) ∷ polls) mark before
        (short, sorted, later, rest) =
      let new = parse_stream decode batch in
      let next = refresh reachable (log ++ batch) app in
      let (written, moved) = refresh-batch t reachable log batch app mark before short later in
      let (reached, within) = latest-Before t new sorted (All-weaken t new later) in
      let all_before : Before (latest t new) (parse_stream decode (log ++ batch)) =
        subst (λ l. Before (latest t new) l) (sym (parse_stream-append decode log batch))
          (Before-append (latest t new) (parse_stream decode log) new
            (Before-mono t (latest t new) (parse_stream decode log) reached before) within) in
      refreshes-batches (latest t new) next (log ++ batch) polls moved all_before rest
      ∙ ap (λ l. l ++ lines_of (all_of polls)) written
      ∙ append_assoc app.event_log (lines_of new) (lines_of (all_of polls))
      ∙ ap (λ l. app.event_log ++ l) (sym (lines_of-append new (all_of polls)))

  -- The newest lines end where the whole log does.
  newest_last :
      (first : List String) (e : TelemetryEntry R) (es : List (TelemetryEntry R))
      → recent_entries decode 500 first ≡ e ∷ es
      → latest 0 (parse_stream decode first) ≡ latest 0 (e ∷ es)
  unfolding recent_entries
  newest_last first e es h =
      let (left, split) = take_last_split 499 first in
      ap (λ l. latest 0 (parse_stream decode l)) (sym split)
      ∙ ap (latest 0) (parse_stream-append decode left (take_last 500 first))
      ∙ ap (λ l. latest 0 (parse_stream decode left ++ l)) h
      ∙ latest-append 0 (parse_stream decode left) e es

  -- The first refresh, of a log whose newest 500 lines have an entry.
  first_refresh :
      (config : DashboardConfig R) (reachable : Bool) (first : List String) (e : TelemetryEntry R)
      (es : List (TelemetryEntry R))
      → recent_entries decode 500 first ≡ e ∷ es
      → let next = refresh reachable first (new_app config) in
        (next.event_log ≡ lines_of (take_last 20 (e ∷ es)))
        × (next.last_entry_ts ≡ some (latest 0 (e ∷ es)))
  unfolding update_health_ui show_health health_data
  first_refresh config reachable first e es h =
      let filtered : filter_new_entries (recent_entries decode 500 first) none
          ≡ (take_last 20 (e ∷ es), some (latest 0 (e ∷ es))) =
        ap (λ l. filter_new_entries l none) h ∙ first_poll e es in
      let base =
        show_health (health_data (recent_entries decode 500 first) reachable none)
          (new_app config) in
      (
        refresh_lines reachable first (new_app config) ∙ ap (λ p. lines_of p.0) filtered,
        ap (λ p. (append_log p.0 p.1 base).last_entry_ts) filtered ∙ append_log_newest e es _ base,
      )

  -- The event log of a dashboard that starts on a log whose newest 500 lines have an entry, and
  -- whose refreshes do not overtake one another: the lines of the last 20 of these entries, and
  -- then those of every later entry, once and in order, except for metrics and for what the control
  -- channel reports; where the log grows by at most 500 lines between two refreshes, the entries
  -- of the first log and of each batch are in order of time, and those of a batch are strictly
  -- later than what stands before them.
  pub refreshes_all :
      (config : DashboardConfig R) (reachable : Bool) (first : List String) (e : TelemetryEntry R)
      (es : List (TelemetryEntry R)) (polls : List (Bool × List String))
      → recent_entries decode 500 first ≡ e ∷ es
      → IsSorted earlier (parse_stream decode first)
      → Follows (latest 0 (parse_stream decode first)) polls
      → (refreshes (new_app config) [] ((reachable, first) ∷ polls)).event_log
        ≡ lines_of (take_last 20 (e ∷ es) ++ all_of polls)
  refreshes_all config reachable first e es polls h sorted follows =
      let all = parse_stream decode first in
      let t = latest 0 all in
      let next = refresh reachable first (new_app config) in
      let (written, moved) = first_refresh config reachable first e es h in
      let (reached, within) = latest-Before 0 all sorted (All-zero all) in
      refreshes-batches t next first polls (moved ∙ ap some (sym (newest_last first e es h))) within
        follows
      ∙ ap (λ l. l ++ lines_of (all_of polls)) written
      ∙ sym (lines_of-append (take_last 20 (e ∷ es)) (all_of polls))

module _ {R : Type 0} ⦃fl : Float R⦄ (env : Env R) (config : DashboardConfig R) where
  -- A worker that can read the log and reach the server hands over what a refresh shows.
  fetch_health_data-recent :
      (last_ts : Option ℕ) (lines : List String) (s : Session)
      → env.read_lines s.calls config.log_file ≡ got lines
      → env.open_connection (s.calls + 1) config.host config.control_port ≡ got tt
      → (fetch_health_data env config last_ts s).0
        ≡ ok (done (health_data (recent_entries env.decode_entry 500 lines) true last_ts))
  unfolding fetch_health_data check_server_reachable
  fetch_health_data-recent last_ts lines s read reached = rw (read, reached) refl
