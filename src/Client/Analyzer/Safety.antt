-- ===== src/Client/Analyzer/Safety.antt =====
-- No call of the analyzer (Analyzer.cpp) goes through a bad pointer.
use hsn_capture_hpc_ng.Base.{ℕ, List, some, Bool, ◌≡◌, subst, inl, inr, Bool-cases}
use hsn_capture_hpc_ng.Client.Options.{OptionsMap, add_option}
use hsn_capture_hpc_ng.Client.Analyzer.{Analyzer, on_option_changed, new_analyzer, update, on_event}
use hsn_capture_hpc_ng.Client.Analyzer.Dumper.{IsReady, on_option_changed-IsReady}
use hsn_capture_hpc_ng.Client.Analyzer.Ready.{ReadyAfter, new_analyzer-IsReady, update-ReadyAfter}

-- What can come to pass, from the options at the start on: options that are set, notifications of the
-- visitor, and events of the monitors.
pub data Reach : OptionsMap → Analyzer → Type 0 where
  constructed : (options : OptionsMap) → Reach options (new_analyzer options)
  changed :
      (option value : List ℕ) (options : OptionsMap) (a : Analyzer)
      → Reach options a
      → Reach
          (add_option option value options)
          (on_option_changed (add_option option value options) option a)
  notified :
      (is_connected : Bool) (code : ℕ) (options : OptionsMap) (a a' : Analyzer)
      → Reach options a
      → update options is_connected code a ≡ some a'
      → Reach options a'
  monitored :
      (id : ℕ) (options : OptionsMap) (a : Analyzer)
      → Reach options a
      → Reach options (on_event id a)

Reach-IsReady : (options : OptionsMap) (a : Analyzer) → Reach options a → IsReady a
unfolding on_event
Reach-IsReady options a (constructed options1) = new_analyzer-IsReady options1
Reach-IsReady options a (changed option value options1 a1 r) =
    on_option_changed-IsReady (add_option option value options1) option a1
      (Reach-IsReady options1 a1 r)
Reach-IsReady options a (notified is_connected code options1 a1 a2 r e) =
    subst ReadyAfter e
      (update-ReadyAfter options1 is_connected code a1 (Reach-IsReady options1 a1 r))
Reach-IsReady options a (monitored id options1 a1 r) = elim (Bool-cases a1.connected) [
  | inl e ↦ rw e (Reach-IsReady options1 a1 r)
  | inr e ↦ rw e (Reach-IsReady options1 a1 r)
]

-- Whatever options are set when the analyzer is constructed and later, in any order with
-- notifications and events: a notification is dealt with, so that no method of a packet dumper is
-- called that is missing or deleted, and there is a dumper exactly where packets are captured.
pub update-Returns :
    (options : OptionsMap) (is_connected : Bool) (code : ℕ) (a : Analyzer)
    → Reach options a
    → IsReady a × ReadyAfter (update options is_connected code a)
update-Returns options is_connected code a r = (
  Reach-IsReady options a r,
  update-ReadyAfter options is_connected code a (Reach-IsReady options a r),
)
