-- ===== src/Dashboard/App/EventLog.antt =====
-- The lines that entries leave in the event log of a dashboard, and its watermark.
use wow_server_sim.Common.{
  ℕ, ◌≡◌, refl, sym, ap, ◌∙◌, ◌⊎◌, inl, inr, String, Option, some, List, [], ◌∷◌, ◌++◌, map, select,
  select-append, take_last, get_last?,
}
use mathlib.Core.List.{append-nil}
use wow_server_sim.Models.{TelemetryEntry}
use wow_server_sim.Dashboard.Tail.Watch.{latest, last-some, last-take_last}
use wow_server_sim.Dashboard.Panels.{format_event_line}
use wow_server_sim.Dashboard.App.{App, is_shown, append_log}

map-append : {A B : Type 0} (f : A → B) (xs ys : List A) → map f (xs ++ ys) ≡ map f xs ++ map f ys
map-append f [] ys = refl
map-append f (x ∷ xs) ys = ap (λ l. f x ∷ l) (map-append f xs ys)

module _ {R : Type 0} where
  abbrev pub lines_of : List (TelemetryEntry R) → List String
  lines_of entries = map format_event_line (select is_shown entries)

  pub lines_of-append :
      (xs ys : List (TelemetryEntry R)) → lines_of (xs ++ ys) ≡ lines_of xs ++ lines_of ys
  lines_of-append xs ys =
      ap (map format_event_line) (select-append is_shown xs ys)
      ∙ map-append format_event_line (select is_shown xs) (select is_shown ys)

  pub append_log_lines :
      (es : List (TelemetryEntry R)) (m : Option ℕ) (app : App R)
      → (append_log es m app).event_log ≡ app.event_log ++ lines_of es
  unfolding append_log
  append_log_lines [] m app = sym (append-nil app.event_log)
  append_log_lines (e ∷ es) m app = refl

  pub append_log_mark :
      (t : ℕ) (es : List (TelemetryEntry R)) (mark : Option ℕ) (app : App R)
      → app.last_entry_ts ≡ some t
      → (es ≡ []) ⊎ (mark ≡ some (latest t es))
      → (append_log es mark app).last_entry_ts ≡ some (latest t es)
  unfolding append_log
  append_log_mark t [] mark app h k = h
  append_log_mark t (e ∷ es) mark app h (inl k) = absurd cc
  append_log_mark t (e ∷ es) mark app h (inr k) = k

  append_log_last :
      (es : List (TelemetryEntry R)) (x : TelemetryEntry R) (mark : Option ℕ) (app : App R)
      → get_last? es ≡ some x
      → (append_log es mark app).last_entry_ts ≡ mark
  unfolding append_log
  append_log_last [] x mark app h = absurd cc
  append_log_last (e ∷ es) x mark app h = refl

  pub append_log_newest :
      (e : TelemetryEntry R) (es : List (TelemetryEntry R)) (mark : Option ℕ) (app : App R)
      → (append_log (take_last 20 (e ∷ es)) mark app).last_entry_ts ≡ mark
  append_log_newest e es mark app =
      let (x, last) = last-some e es in
      append_log_last (take_last 20 (e ∷ es)) x mark app (last-take_last 19 (e ∷ es) ∙ last)
