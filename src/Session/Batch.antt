-- ===== src/Session/Batch.antt =====
-- The events of a batch job and the items that it runs.
use phono_junk.Common.{
  ℕ, zero, suc, ◌+◌, ◌<◌, ◌≡◌, refl, sym, ap, ◌∙◌, some, List, [], ◌∷◌, length, take, get_elem?,
  Bool, true, false, inl, inr, Bool-cases, arith,
}
use phono_junk.Common.Outcome.{Outcome, ok, err, panic}
use phono_junk.Common.Action.{Action}
use phono_junk.Common.Hex.{Text}
use phono_junk.Session.{
  JobEventKind, started, progress, library_changed, finished, cancelled, failed, running, stopped,
  Ran, sending, after_item, batch_loop, run_batch,
}

-- Progress events that count up from an index.
abbrev pub progress_from : (index n total : ℕ) → List JobEventKind
progress_from index zero total = []
progress_from index (suc n) total = progress (index + 1) total ∷ progress_from (index + 1) n total

module _ {W T : Type 0} (cancel : ℕ → Bool) (run : T → Action W Text (Unit {0})) where
  -- All items run and succeed, one after the other.
  pub data Runs : List T → W → W → Type 0 where
    runs_none : (w : W) → Runs [] w w
    runs_more :
        {x : T} {xs : List T} {u v w : W} → run x u ≡ (ok tt, v) → Runs xs v w → Runs (x ∷ xs) u w

  -- How a batch ends after its first `n` items, in a state: by its last events, its thread and the state
  -- after it.
  pub data Ending (index n : ℕ) (items : List T) (v : W) : Ran W → Type 0 where
    ended_whole :
        n ≡ length items → Ending index n items v (library_changed ∷ finished ∷ [], running, v)
    ended_cancelled :
        n < length items
        → cancel (index + n) ≡ true
        → Ending index n items v (cancelled ∷ [], running, v)
    ended_failed :
        (item : T) (error : Text) (w : W)
        → get_elem? items n ≡ some item
        → run item v ≡ (err error, w)
        → Ending index n items v (failed error ∷ [], running, w)
    ended_panic :
        (item : T) (w : W)
        → get_elem? items n ≡ some item
        → run item v ≡ (panic, w)
        → Ending index n items v ([], stopped, w)

  pub record BatchRun (index total : ℕ) (items : List T) (w : W) (result : Ran W) : Type 0 where
    pub n : ℕ
    pub v : W
    pub ending : Ran W
    pub ran : Runs (take n items) w v
    pub uncancelled : (j : ℕ) → j < n → cancel (index + j) ≡ false
    pub ended : Ending index n items v ending
    pub events : result ≡ sending (progress_from index n total) ending

  Ending-later :
      (index n : ℕ) (x : T) (items : List T) (v : W) (r : Ran W)
      → Ending (index + 1) n items v r
      → Ending index (suc n) (x ∷ items) v r
  Ending-later index n x items v r (ended_whole h) = ended_whole (ap suc h)
  Ending-later index n x items v r (ended_cancelled h e) =
      let same : index + 1 + n ≡ index + suc n = omega arith in
      ended_cancelled (omega arith) (ap cancel (sym same) ∙ e)
  Ending-later index n x items v r (ended_failed item error w h e) = ended_failed item error w h e
  Ending-later index n x items v r (ended_panic item w h e) = ended_panic item w h e

  ends_at_once :
      (index total : ℕ) (items : List T) (w : W) (r : Ran W)
      → Ending index 0 items w r
      → BatchRun index total items w r
  ends_at_once index total items w r h = record {
    n = 0;
    v = w;
    ending = r;
    ran = runs_none w;
    uncancelled = λ j lt. absurd (omega arith);
    ended = h;
    events = refl;
  }

  uncancelled_more :
      (index n : ℕ)
      → cancel index ≡ false
      → ((j : ℕ) → j < n → cancel (index + 1 + j) ≡ false)
      → (j : ℕ) → j < suc n
      → cancel (index + j) ≡ false
  uncancelled_more index n here later zero lt =
      let same : index + 0 ≡ index = omega arith in ap cancel same ∙ here
  uncancelled_more index n here later (suc j) lt =
      let same : index + suc j ≡ index + 1 + j = omega arith in
      ap cancel same ∙ later j (omega arith)

  item-BatchRun :
      (index total : ℕ) (x : T) (items : List T) (w : W) (rest : W → Ran W)
      → cancel index ≡ false
      → ((v : W) → BatchRun (index + 1) total items v (rest v))
      → (o : Outcome Text (Unit {0}) × W) → run x w ≡ o
      → BatchRun index total (x ∷ items) w (after_item (progress (index + 1) total) o rest)
  item-BatchRun index total x items w rest c h (ok done, v) e =
      let r = h v in
      record {
        n = suc r.n;
        v = r.v;
        ending = r.ending;
        ran = runs_more e r.ran;
        uncancelled = uncancelled_more index r.n c r.uncancelled;
        ended = Ending-later index r.n x items r.v r.ending r.ended;
        events = ap (sending (progress (index + 1) total ∷ [])) r.events;
      }
  item-BatchRun index total x items w rest c h (err error, v) e =
      ends_at_once index total (x ∷ items) w _ (ended_failed x error v refl e)
  item-BatchRun index total x items w rest c h (panic, v) e =
      ends_at_once index total (x ∷ items) w _ (ended_panic x v refl e)

  batch_loop-BatchRun :
      (total index : ℕ) (items : List T) (w : W)
      → BatchRun index total items w (batch_loop cancel run total index items w)
  unfolding batch_loop
  batch_loop-BatchRun total index [] w = ends_at_once index total [] w _ (ended_whole refl)
  batch_loop-BatchRun total index (x ∷ items) w = elim (Bool-cases (cancel index)) [
    | inl set ↦
        let same : index + 0 ≡ index = omega arith in
        rw set (
          ends_at_once index total (x ∷ items) w _
            (ended_cancelled (omega arith) (ap cancel same ∙ set)))
    | inr other ↦ rw other (
        item-BatchRun index total x items w _ other
          (λ v. batch_loop-BatchRun total (index + 1) items v) (run x w) refl)
  ]

  -- A batch job, whatever its items do and whenever it is cancelled, runs its first items, up to some
  -- number, one after the other with success and with no cancellation seen before them. It reports
  -- its start with the number of items, one step of progress for each of these items in order, and
  -- then it ends in one of four ways: with all items run it reports the change of the library and
  -- its end; cancelled before the next item it reports only that; on the next item's error it
  -- reports only the error; and on a panic of the next item it reports nothing more.
  pub run_batch-BatchRun :
      (items : List T) (w : W)
      → (rest : Ran W) × (run_batch cancel run items w ≡ sending (started (length items) ∷ []) rest)
        × BatchRun 0 (length items) items w rest
  unfolding run_batch
  run_batch-BatchRun items w = (
    batch_loop cancel run (length items) 0 items w,
    refl,
    batch_loop-BatchRun (length items) 0 items w,
  )
