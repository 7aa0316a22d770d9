-- ===== src/Cycle/Requests.antt =====
-- internal/cycle/cycle.go: what a run is asked for, what its legs are told, and what it does. A run is
-- the events that it makes, in order, and how it stopped.
use crossrev.Prelude.{ℕ, String, Bool, true, Option, List, [], ◌∷◌, Result, nat_Eq, text_Eq}
use crossrev.Prelude.Text.{itoa, ◌++◌}
use crossrev.Core.Revision.{Slug, slug_text}
use crossrev.Cycle.Readings.{State}

abbrev pub trigger_human : String
trigger_human = "human"

abbrev pub trigger_automatic : String
trigger_automatic = "automatic"

pub record Request : Type 0 where
  pub pr : ℕ
  pub repo : Slug
  pub trigger : String
  pub harness_override : String
  pub model_override : String
  pub effort_override : String
  pub input_policy_override : String
  pub keep_transcripts : Bool
  pub no_tips : Bool

pub record LegRequest : Type 0 where
  pub pr : ℕ
  pub repo : Slug
  pub trigger : String
  pub harness_override : String
  pub model_override : String
  pub effort_override : String
  pub input_policy_override : String
  pub keep_transcripts : Bool
  pub continuation : Bool
  pub no_tips : Bool

pub record LoadRequest : Type 0 where
  pub pr : ℕ
  pub repo : Slug
  pub trigger : String

-- internal/ui/errors.go.
pub record FatalError : Type 0 where
  pub reason : String
  pub action : String

-- A leg answers whether it failed.
pub record Driver (W : Type 0) : Type 0 where
  pub review : LegRequest → W → Bool × W
  pub resolve : LegRequest → W → Bool × W
  pub load : LoadRequest → W → Result FatalError State × W
  pub pairing : Option (String → Option FatalError)

pub data Event : Type 0 where
  loaded : State → Event
  review_ran resolve_ran : LegRequest → Event
  said ended : String → Event
  nudged : Event

-- `Result`.
pub record Stopped : Type 0 where
  pub exit_code : ℕ
  pub error : Option FatalError

abbrev pub Trace : Type 0
Trace = List Event × Stopped

abbrev pub stop : ℕ → Option FatalError → Trace
stop exit_code error = ([], record { exit_code = exit_code; error = error })

abbrev pub tell : Event → Trace → Trace
tell e (es, s) = (e ∷ es, s)

abbrev pub leg_request : Request → Bool → LegRequest
leg_request req continuation = record {
  pr = req.pr;
  repo = req.repo;
  trigger = req.trigger;
  harness_override = req.harness_override;
  model_override = req.model_override;
  effort_override = req.effort_override;
  input_policy_override = req.input_policy_override;
  keep_transcripts = req.keep_transcripts;
  continuation = continuation;
  no_tips = true;
}

abbrev pub reload : Request → LoadRequest
reload req = record { pr = req.pr; repo = req.repo; trigger = trigger_human }

abbrev pub reload_loaded : State → LoadRequest
reload_loaded state = record { pr = state.pr; repo = state.repo; trigger = trigger_human }

abbrev pub first_load : Request → LoadRequest
first_load req = record { pr = req.pr; repo = req.repo; trigger = req.trigger }

abbrev pub pull_request : State → String
pull_request state = slug_text state.repo ++ "#" ++ itoa state.pr
