-- ===== src/Identify/Staged/Once.antt =====
-- No query is made twice.
use mathlib.Core.List.{append_assoc, append-nil, map-append}
use mathlib.Core.Path.{subst}
use phono_junk.Common.{
  ℕ, ◌≡◌, refl, sym, ap, ◌∙◌, List, [], ◌∷◌, ◌++◌, map, any, false, inl, inr, Bool-cases,
  Option-cases, choice,
}
use phono_junk.Common.Outcome.{Outcome, ok, err, panic}
use phono_junk.Toc.{Toc}
use phono_junk.Toc.DiscId.{DiscIds}
use phono_junk.Identify.Scoring.Resolve.{score_and_resolve}
use phono_junk.Identify.Learned.{DiscIdKind, ProviderLookup, input_value}
use phono_junk.Identify.Staged.{
  ProviderTier, exact_disc, music_api, music_fallback, generic_barcode, same_tier, reported,
  thread_panicked, Provider, QueryKey, same_key, LookupTask, ProviderObservation, Staged, Planned,
  plan_kind, plan_more, plan_kinds, plan_tier, run_task, take_result, take_results, skips,
  run_stage, start, run_stages, identify_staged,
}

-- No key of the list stands before it, nor among those seen.
abbrev pub IsNew : List QueryKey → QueryKey → Type 0
IsNew seen key = any (λ q. same_key q key) seen ≡ false

abbrev pub Distinct : List QueryKey → List QueryKey → Type 0
Distinct seen [] = Unit
Distinct seen (key ∷ keys) = IsNew seen key × Distinct (seen ++ key ∷ []) keys

Distinct-append :
    (seen xs ys : List QueryKey)
    → Distinct seen xs
    → Distinct (seen ++ xs) ys
    → Distinct seen (xs ++ ys)
Distinct-append seen [] ys h k = subst (λ (l : List QueryKey). Distinct l ys) (append-nil seen) k
Distinct-append seen (x ∷ xs) ys h k = (
  h.0,
  Distinct-append (seen ++ x ∷ []) xs ys h.1
      (subst (λ (l : List QueryKey). Distinct l ys) (sym (append_assoc seen (x ∷ []) xs)) k),
)

module _ {Value E : Type 0} where
  abbrev pub task_key : LookupTask Value E → QueryKey
  task_key t = (t.provider.name, t.input_kind, t.input_value)

  abbrev pub observation_key : ProviderObservation Value E → QueryKey
  observation_key o = (o.provider, o.input_kind, o.input_value)

  -- The tasks of a plan are new queries, which it adds to those made before.
  abbrev Fresh : List QueryKey → Planned Value E → Type 0
  Fresh queried p = (p.1 ≡ queried ++ map task_key p.0) × Distinct queried (map task_key p.0)

  plan_more-Fresh :
      (queried : List QueryKey) (p : Planned Value E) (rest : List QueryKey → Planned Value E)
      → Fresh queried p
      → ((later : List QueryKey) → Fresh later (rest later))
      → Fresh queried (plan_more p rest)
  plan_more-Fresh queried (tasks, later) rest h k =
      let (added, distinct) = h in
      let (more, still) = k later in
      let keys = map-append task_key tasks (rest later).0 in
      let whole = append_assoc queried (map task_key tasks) (map task_key (rest later).0) in
      (
        more
            ∙ ap (λ (l : List QueryKey). l ++ map task_key (rest later).0) added
            ∙ whole
            ∙ ap (λ (l : List QueryKey). queried ++ l) (sym keys),
        subst (λ (l : List QueryKey). Distinct queried l) (sym keys)
            (Distinct-append queried (map task_key tasks) (map task_key (rest later).0) distinct (
              subst (λ (l : List QueryKey). Distinct l (map task_key (rest later).0)) added still)),
      )

  plan_kind-Fresh :
      (ids : DiscIds) (provider : Provider Value E) (kind : DiscIdKind) (queried : List QueryKey)
      → Fresh queried (plan_kind ids provider kind queried)
  unfolding plan_kind
  plan_kind-Fresh ids provider kind queried = elim (Option-cases (input_value kind ids)) [
    | inl nothing ↦ rw (nothing, plan_kind) (sym (append-nil queried), tt)
    | inr (value, e) ↦
        elim (Bool-cases (any (λ q. same_key q (provider.name, kind, value)) queried)) [
          | inl made ↦ rw (e, plan_kind) (rw made (sym (append-nil queried), tt))
          | inr new ↦ rw (e, plan_kind) (rw new (refl, (new, tt)))
        ]
  ]

  plan_kinds-Fresh :
      (ids : DiscIds) (provider : Provider Value E) (kinds : List DiscIdKind)
      (queried : List QueryKey)
      → Fresh queried (plan_kinds ids provider kinds queried)
  unfolding plan_kinds
  plan_kinds-Fresh ids provider [] queried = (sym (append-nil queried), tt)
  plan_kinds-Fresh ids provider (kind ∷ kinds) queried =
      plan_more-Fresh queried (plan_kind ids provider kind queried) _
        (plan_kind-Fresh ids provider kind queried)
        (λ later. plan_kinds-Fresh ids provider kinds later)

  plan_tier-Fresh :
      (ids : DiscIds) (tier : ProviderTier) (providers : List (Provider Value E))
      (queried : List QueryKey)
      → Fresh queried (plan_tier ids tier providers queried)
  unfolding plan_tier
  plan_tier-Fresh ids tier [] queried = (sym (append-nil queried), tt)
  plan_tier-Fresh ids tier (provider ∷ providers) queried =
      plan_more-Fresh queried _ _
        (choice (Fresh queried) (same_tier provider.tier tier) _ _
          (λ _. plan_kinds-Fresh ids provider provider.required_ids queried)
          (sym (append-nil queried), tt))
        (λ later. plan_tier-Fresh ids tier providers later)

  abbrev keys_of : Staged Value E → List QueryKey
  keys_of s = map observation_key s.observations

  -- Each query has one observation, in the order in which they were made.
  abbrev Once : Staged Value E → Type 0
  Once s = (keys_of s ≡ s.queried) × Distinct [] s.queried

  -- Whatever a thread's result is, it is observed.
  answer_keys :
      (stage : ℕ) (task : LookupTask Value E) (s : Staged Value E)
      (o : Outcome E (ProviderLookup Value))
      → (keys_of (
            take_result stage task
              (elim o [ ok l ↦ ok l | err e ↦ err (reported e) | panic ↦ err thread_panicked ])
              s)
          ≡ keys_of s ++ task_key task ∷ [])
        × ((take_result stage task
              (elim o [ ok l ↦ ok l | err e ↦ err (reported e) | panic ↦ err thread_panicked ])
              s).queried
            ≡ s.queried)
  unfolding take_result
  answer_keys stage task s (ok l) = (map-append observation_key s.observations _, refl)
  answer_keys stage task s (err e) = (map-append observation_key s.observations _, refl)
  answer_keys stage task s panic = (map-append observation_key s.observations _, refl)

  take_result-keys :
      (toc : Toc) (stage : ℕ) (task : LookupTask Value E) (s : Staged Value E)
      → (keys_of (take_result stage task (run_task toc task) s) ≡ keys_of s ++ task_key task ∷ [])
        × ((take_result stage task (run_task toc task) s).queried ≡ s.queried)
  unfolding take_result run_task
  take_result-keys toc stage task s =
      answer_keys stage task s (task.provider.lookup_many toc task.ids)

  take_results-keys :
      (toc : Toc) (stage : ℕ) (tasks : List (LookupTask Value E)) (s : Staged Value E)
      → (keys_of (take_results toc stage tasks s) ≡ keys_of s ++ map task_key tasks)
        × ((take_results toc stage tasks s).queried ≡ s.queried)
  unfolding take_results
  take_results-keys toc stage [] s = (sym (append-nil (keys_of s)), refl)
  take_results-keys toc stage (task ∷ tasks) s =
      let after = take_result stage task (run_task toc task) s in
      let (first_key, same) = take_result-keys toc stage task s in
      let (more, still) = take_results-keys toc stage tasks after in
      (
        more
            ∙ ap (λ (l : List QueryKey). l ++ map task_key tasks) first_key
            ∙ append_assoc (keys_of s) (task_key task ∷ []) (map task_key tasks),
        still ∙ same,
      )

  run_stage-Once :
      (providers : List (Provider Value E)) (toc : Toc) (stage : ℕ) (tier : ProviderTier)
      (s : Staged Value E)
      → Once s
      → Once (run_stage providers toc stage tier s)
  unfolding run_stage
  run_stage-Once providers toc stage tier s h =
      choice Once (skips tier (score_and_resolve toc s.candidates) s.candidates) _ _ (λ _. h)
        (let p = plan_tier s.ids tier providers s.queried in
          let (added, distinct) = plan_tier-Fresh s.ids tier providers s.queried in
          let (keys, same) = take_results-keys toc stage p.0 (record s { queried = p.1 }) in
          (
            keys ∙ ap (λ (l : List QueryKey). l ++ map task_key p.0) h.0 ∙ sym added ∙ sym same,
            subst (λ (l : List QueryKey). Distinct [] l) (sym (same ∙ added))
                (Distinct-append [] s.queried (map task_key p.0) h.1 distinct),
          ))

  -- Whatever the providers are and answer, no provider is asked twice for the same kind and value of
  -- identifier, in any stage: the observations that `identify_staged` returns, one for each query, have
  -- distinct queries.
  pub identify_staged-Distinct :
      (providers : List (Provider Value E)) (toc : Toc) (initial_ids : DiscIds)
      → Distinct [] (map observation_key (identify_staged providers toc initial_ids).observations)
  unfolding identify_staged run_stages
  identify_staged-Distinct providers toc initial_ids =
      let first_stage = run_stage-Once providers toc 1 exact_disc (start initial_ids) (refl, tt) in
      let second_stage = run_stage-Once providers toc 2 music_api _ first_stage in
      let third_stage = run_stage-Once providers toc 3 music_fallback _ second_stage in
      let (same, distinct) = run_stage-Once providers toc 4 generic_barcode _ third_stage in
      subst (λ (l : List QueryKey). Distinct [] l) (sym same) distinct
