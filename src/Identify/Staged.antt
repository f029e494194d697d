-- ===== src/Identify/Staged.antt =====
-- `identify_staged` of phono-junk-identify/src/pipeline.rs: the stages in which providers are asked. The
-- threads of a stage are joined before any result is used, so that their order does not matter; a
-- provider, its credentials included, is a function of what it is asked.
pub mod Once
use phono_junk.Common.{
  ℕ, zero, suc, ◌+◌, Option, none, some, List, [], ◌∷◌, ◌++◌, any, is_empty, Bool, true, false, not,
  ◌&&◌, ◌||◌, if◌then◌else◌,
}
use phono_junk.Common.Outcome.{Outcome, ok, err, panic}
use phono_junk.Common.Hex.{Text}
use phono_junk.Common.Text.{text_eq}
use phono_junk.Toc.{Toc}
use phono_junk.Toc.DiscId.{DiscIds}
use phono_junk.Identify.Scoring.{ReleaseCandidate, CandidateResolution}
use phono_junk.Identify.Scoring.Resolve.{score_and_resolve}
use phono_junk.Identify.Learned.{
  DiscIdKind, same_kind, ProviderLookup, input_value, ids_for_input, learn_from_candidates,
  apply_learned_ids,
}

pub data ProviderTier : Type 0 where
  exact_disc music_api music_fallback generic_barcode : ProviderTier

abbrev pub same_tier : ProviderTier → ProviderTier → Bool
same_tier exact_disc exact_disc = true
same_tier music_api music_api = true
same_tier music_fallback music_fallback = true
same_tier generic_barcode generic_barcode = true
same_tier _ _ = false

-- An error that a provider reports, or the panic of its thread.
pub data ProviderError (E : Type 0) : Type 0 where
  reported : E → ProviderError E
  thread_panicked : ProviderError E

-- The descriptor's tier and identifiers, and `lookup_many`.
pub record Provider (Value E : Type 0) : Type 0 where
  pub name : Text
  pub tier : ProviderTier
  pub required_ids : List DiscIdKind
  pub lookup_many : Toc → DiscIds → Outcome E (ProviderLookup Value)

abbrev pub QueryKey : Type 0
QueryKey = Text × DiscIdKind × Text

abbrev pub same_key : QueryKey → QueryKey → Bool
same_key (p, k, v) (q, l, w) = text_eq p q && same_kind k l && text_eq v w

pub record LookupTask (Value E : Type 0) : Type 0 where
  pub provider : Provider Value E
  pub input_kind : DiscIdKind
  pub input_value : Text
  pub ids : DiscIds

pub record ProviderObservation (Value E : Type 0) : Type 0 where
  pub provider : Text
  pub input_kind : DiscIdKind
  pub input_value : Text
  pub stage : ℕ
  pub lookup : Option (ProviderLookup Value)
  pub error : Option (ProviderError E)

-- The variables of the loop over the stages.
pub record Staged (Value E : Type 0) : Type 0 where
  pub ids : DiscIds
  pub observations : List (ProviderObservation Value E)
  pub errors : List (Text × ProviderError E)
  pub candidates : List (ReleaseCandidate Value)
  pub queried : List QueryKey

pub record StagedIdentifyOutcome (Value E : Type 0) : Type 0 where
  pub resolution : Option (CandidateResolution Value)
  pub observations : List (ProviderObservation Value E)
  pub errors : List (Text × ProviderError E)

module _ {Value : Type 0} where
  -- The stages that the loop passes over.
  unfoldable pub skips :
      ProviderTier → Option (CandidateResolution Value) → List (ReleaseCandidate Value) → Bool
  skips music_fallback none candidates = false
  skips music_fallback (some resolution) candidates = not resolution.evidentially_ambiguous
  skips generic_barcode current candidates = not (is_empty candidates)
  skips exact_disc current candidates = false
  skips music_api current candidates = false

  -- The loop over the candidates of a lookup.
  unfoldable pub add_candidates :
      List (ReleaseCandidate Value) → List (ReleaseCandidate Value) → List (ReleaseCandidate Value)
  add_candidates candidates [] = candidates
  add_candidates candidates (c ∷ cs) =
      add_candidates
        (if any
            (λ existing.
              text_eq existing.provider c.provider
              && text_eq existing.candidate_key c.candidate_key)
            candidates
          then candidates
          else candidates ++ c ∷ [])
        cs

-- The tasks of a stage, and the queries made so far.
abbrev pub Planned : Type 0 → Type 0 → Type 0
Planned Value E = List (LookupTask Value E) × List QueryKey

module _ {Value E : Type 0} where
  -- A kind of identifier that a provider asks for: a query that was not made before becomes a task.
  unfoldable pub plan_kind :
      DiscIds → Provider Value E → DiscIdKind → List QueryKey → Planned Value E
  unfolding input_value ids_for_input
  plan_kind ids provider kind queried = elim (input_value kind ids) [
    | none ↦ ([], queried)
    | some value ↦
        if any (λ q. same_key q (provider.name, kind, value)) queried then ([], queried) else (
          record {
            provider = provider;
            input_kind = kind;
            input_value = value;
            ids = ids_for_input ids kind;
          }
              ∷ [],
          queried ++ (provider.name, kind, value) ∷ [],
        )
  ]

  abbrev pub plan_more : Planned Value E → (List QueryKey → Planned Value E) → Planned Value E
  plan_more (tasks, queried) rest = let (more, later) = rest queried in (tasks ++ more, later)

  unfoldable pub plan_kinds :
      DiscIds → Provider Value E → List DiscIdKind → List QueryKey → Planned Value E
  unfolding plan_kind
  plan_kinds ids provider [] queried = ([], queried)
  plan_kinds ids provider (kind ∷ kinds) queried =
      plan_more (plan_kind ids provider kind queried) (plan_kinds ids provider kinds)

  -- The providers of a tier.
  unfoldable pub plan_tier :
      DiscIds → ProviderTier → List (Provider Value E) → List QueryKey → Planned Value E
  unfolding plan_kinds
  plan_tier ids tier [] queried = ([], queried)
  plan_tier ids tier (provider ∷ providers) queried =
      plan_more
        (if same_tier provider.tier tier
          then plan_kinds ids provider provider.required_ids queried
          else ([], queried))
        (plan_tier ids tier providers)

  -- A thread's result.
  unfoldable pub run_task :
      Toc → LookupTask Value E → Outcome (ProviderError E) (ProviderLookup Value)
  run_task toc task = elim (task.provider.lookup_many toc task.ids) [
    | ok lookup ↦ ok lookup
    | err e ↦ err (reported e)
    | panic ↦ err thread_panicked
  ]

  abbrev pub observed :
      ℕ
      → LookupTask Value E
      → Option (ProviderLookup Value)
      → Option (ProviderError E)
      → ProviderObservation Value E
  observed stage task lookup error = record {
    provider = task.provider.name;
    input_kind = task.input_kind;
    input_value = task.input_value;
    stage = stage;
    lookup = lookup;
    error = error;
  }

  -- The body of the loop over the results; no task's result is a panic.
  unfoldable pub take_result :
      ℕ
      → LookupTask Value E
      → Outcome (ProviderError E) (ProviderLookup Value)
      → Staged Value E
      → Staged Value E
  unfolding learn_from_candidates apply_learned_ids add_candidates
  take_result stage task (ok found) s =
      let lookup = learn_from_candidates found in
      record s {
        ids = apply_learned_ids s.ids lookup;
        candidates = add_candidates s.candidates lookup.release_candidates;
        observations = s.observations ++ observed stage task (some lookup) none ∷ [];
      }
  take_result stage task (err e) s = record s {
    observations = s.observations ++ observed stage task none (some e) ∷ [];
    errors = s.errors ++ (task.provider.name, e) ∷ [];
  }
  take_result stage task panic s = s

  unfoldable pub take_results :
      Toc → ℕ → List (LookupTask Value E) → Staged Value E → Staged Value E
  unfolding run_task take_result
  take_results toc stage [] s = s
  take_results toc stage (task ∷ tasks) s =
      take_results toc stage tasks (take_result stage task (run_task toc task) s)

  unfoldable pub run_stage :
      List (Provider Value E) → Toc → ℕ → ProviderTier → Staged Value E → Staged Value E
  unfolding skips plan_tier take_results
  run_stage providers toc stage tier s =
      if skips tier (score_and_resolve toc s.candidates) s.candidates
      then s
      else let (tasks, queried) = plan_tier s.ids tier providers s.queried in
        take_results toc stage tasks (record s { queried = queried })

  abbrev pub start : DiscIds → Staged Value E
  start initial_ids = record {
    ids = initial_ids;
    observations = [];
    errors = [];
    candidates = [];
    queried = [];
  }

  -- The four stages.
  unfoldable pub run_stages : List (Provider Value E) → Toc → DiscIds → Staged Value E
  unfolding run_stage
  run_stages providers toc initial_ids = run_stage providers toc 4 generic_barcode (
      run_stage providers toc 3 music_fallback (
        run_stage providers toc 2 music_api
          (run_stage providers toc 1 exact_disc (start initial_ids))))

  unfoldable pub identify_staged :
      List (Provider Value E) → Toc → DiscIds → StagedIdentifyOutcome Value E
  unfolding run_stages
  identify_staged providers toc initial_ids =
      let s = run_stages providers toc initial_ids in
      record {
        resolution = score_and_resolve toc s.candidates;
        observations = s.observations;
        errors = s.errors;
      }
