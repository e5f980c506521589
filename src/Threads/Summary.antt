-- ===== src/Threads/Summary.antt =====
-- What `print_summary` of src/system/metrics.c says of a whole run.
use cmsc125_lab3_sabandal_sa.Common.{
  ℕ, zero, suc, ◌+◌, ◌<◌, ◌≡◌, ◌≢◌, refl, ap, ◌∙◌, none, some, List, [], ◌∷◌, ◌++◌, ℤ, pos, ltb_ℤ,
  arith, take, if◌then◌else◌, false,
}
use cmsc125_lab3_sabandal_sa.CInt.{int_half}
use cmsc125_lab3_sabandal_sa.Machine.{Shared, ret}
use cmsc125_lab3_sabandal_sa.Transaction.{Transaction, tx_running}
use cmsc125_lab3_sabandal_sa.Metrics.{
  Summary, count_outcomes, compute_average_wait, compute_throughput, print_summary,
}
use cmsc125_lab3_sabandal_sa.Metrics.Counts.{
  committed_in, aborted_in, count_outcomes-eq, NoneRunning, counts_add_up,
}
use cmsc125_lab3_sabandal_sa.Flow.Sums.{gather, length-gather, take_all}
use cmsc125_lab3_sabandal_sa.Threads.{Turn, run, launch}
use cmsc125_lab3_sabandal_sa.Threads.Launch.{IsReady}
use cmsc125_lab3_sabandal_sa.Threads.Conservation.{end_of}

NoneRunning-append :
    (txs : List Transaction) (tx : Transaction)
    → NoneRunning txs
    → tx.status ≢ tx_running
    → NoneRunning (txs ++ tx ∷ [])
NoneRunning-append [] tx h e = (e, tt)
NoneRunning-append (x ∷ txs) tx h e = (h.0, NoneRunning-append txs tx h.1 e)

gather-NoneRunning :
    (n : ℕ) (f : ℕ → Transaction)
    → ((i : ℕ) → i < n → (f i).status ≢ tx_running)
    → NoneRunning (gather n f)
gather-NoneRunning zero f h = tt
gather-NoneRunning (suc n) f h =
    NoneRunning-append (gather n f) (f n) (gather-NoneRunning n f (λ i lt. h i (omega arith)))
      (h n (omega arith))

abbrev printed : ℕ → (ℕ → Transaction) → ℤ → Summary
printed n f ticks = record {
  transactions = pos n;
  outcomes = count_outcomes (take n (gather n f)) (record { committed = pos 0; aborted = pos 0 });
  total_ticks = ticks;
  average_wait = compute_average_wait (gather n f) (pos n);
  throughput = compute_throughput (pos n) ticks;
}

not_negative : (n : ℕ) → ltb_ℤ (pos n) (pos 0) ≡ false
not_negative n = ground arith

-- The summary of an array of `n` transactions, of which none runs any more.
print_summary-eq :
    (n : ℕ) (f : ℕ → Transaction) (ticks : ℤ)
    → n < int_half
    → (s : Summary) × (print_summary (gather n f) (pos n) ticks ≡ some s)
      × (s.transactions ≡ pos n)
      × (s.outcomes ≡ record {
        committed = pos (committed_in (gather n f));
        aborted = pos (aborted_in (gather n f));
      })
unfolding print_summary
print_summary-eq n f ticks small = (
  printed n f ticks,
  ap (λ b. if b then none else some (printed n f ticks)) (not_negative n),
  refl,
  ap (λ txs. count_outcomes txs (record { committed = pos 0; aborted = pos 0 }))
        (take_all (gather n f) n (length-gather n f))
      ∙ count_outcomes-eq (gather n f) (omega (arith, length-gather n f)),
)

-- The summary adds up. When all the `n` threads have ended, in whatever order they ran from a
-- ready memory, and `n` fits into an `int`: `print_summary` prints the numbers of committed and of
-- aborted transactions, and the two make `n`.
pub print_summary-adds_up :
    (n : ℕ) (transactions : ℕ → Transaction) (m : Shared) (ready : IsReady n transactions m)
    (ts : List Turn) (results : ℕ → Transaction)
    → ((i : ℕ) → i < n → (run n (launch transactions m) ts).worker i ≡ ret (results i))
    → n < int_half
    → (ticks : ℤ)
    → (s : Summary) × (print_summary (gather n results) (pos n) ticks ≡ some s)
      × (s.outcomes ≡ record {
        committed = pos (committed_in (gather n results));
        aborted = pos (aborted_in (gather n results));
      })
      × (committed_in (gather n results) + aborted_in (gather n results) ≡ n)
print_summary-adds_up n transactions m ready ts results ended small ticks =
    let (s, e, _, outcomes) = print_summary-eq n results ticks small in
    let none_running =
      gather-NoneRunning n results
        (λ i lt. (end_of n transactions m ready ts results ended i lt).ended) in
    (s, e, outcomes, counts_add_up (gather n results) none_running ∙ length-gather n results)
