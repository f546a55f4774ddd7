-- ===== src/Stats/Column.antt =====
-- What the lines of the file add up to.
use aio4c.Prelude.{◌≡◌, refl, sym, ap, ◌∙◌, ◌==◌, List, [], ◌∷◌, arith, if◌then◌else◌}
use aio4c.Prelude.Int.{ℤ, pos, ◌+ℤ◌, ◌-ℤ◌}
use aio4c.Stats.{
  ProbeSize, ProbeTime, Report, Last, Stats, Time, size_index, time_index, stats_init, probe_size,
  probe_time, write_stats, time_between, network_read_size, network_write_size, processed_data_size,
}

-- What happens: a counter grows, or a line is written.
pub data Act : Type 0 where
  sized : ProbeSize → ℤ → Act
  timed : ProbeTime → (start stop : Time) → Act
  written : Act

unfoldable pub act : Act → Stats → Stats
act (sized type size) s = probe_size type size s
act (timed type start stop) s = probe_time type start stop s
act written s = write_stats s

-- The last act first.
unfoldable pub act_all : List Act → Stats → Stats
act_all [] s = s
act_all (a ∷ xs) s = act a (act_all xs s)

-- What the acts counted for a type.
unfoldable pub sized_by : ProbeSize → List Act → ℤ
sized_by t [] = pos 0
sized_by t (sized type size ∷ xs) =
    if size_index t == size_index type then sized_by t xs +ℤ size else sized_by t xs
sized_by t (timed type start stop ∷ xs) = sized_by t xs
sized_by t (written ∷ xs) = sized_by t xs

unfoldable pub timed_by : ProbeTime → List Act → ℤ
timed_by t [] = pos 0
timed_by t (sized type size ∷ xs) = timed_by t xs
timed_by t (timed type start stop ∷ xs) =
    if time_index t == time_index type
    then timed_by t xs +ℤ time_between start stop
    else timed_by t xs
timed_by t (written ∷ xs) = timed_by t xs

-- The sum of a column of the file.
unfoldable pub sum_of : (Report → ℤ) → List Report → ℤ
sum_of f [] = pos 0
sum_of f (l ∷ ls) = f l +ℤ sum_of f ls

sizes-sized_by :
    (t : ProbeSize) (xs : List Act) → (act_all xs stats_init).sizes (size_index t) ≡ sized_by t xs
unfolding act_all act sized_by probe_size probe_time write_stats
sizes-sized_by t [] = refl
sizes-sized_by t (sized type size ∷ xs) = ground (arith, sizes-sized_by t xs)
sizes-sized_by t (timed type start stop ∷ xs) = sizes-sized_by t xs
sizes-sized_by t (written ∷ xs) = sizes-sized_by t xs

times-timed_by :
    (t : ProbeTime) (xs : List Act) → (act_all xs stats_init).times (time_index t) ≡ timed_by t xs
unfolding act_all act timed_by probe_size probe_time write_stats
times-timed_by t [] = refl
times-timed_by t (sized type size ∷ xs) = times-timed_by t xs
times-timed_by t (timed type start stop ∷ xs) = ground (arith, times-timed_by t xs)
times-timed_by t (written ∷ xs) = times-timed_by t xs

difference_sum : (a b : ℤ) → (b -ℤ a) +ℤ a ≡ b
unfolding ◌+ℤ◌ ◌-ℤ◌
difference_sum a b = ground arith

-- A column whose entries are the growth of a counter since the line before.
module _ (column : Report → ℤ) (kept : Last → ℤ) (counter : Stats → ℤ)
    (zero : kept stats_init.last ≡ pos 0)
    (entry : (s : Stats)
      → sum_of column (write_stats s).lines ≡ (counter s -ℤ kept s.last) +ℤ sum_of column s.lines)
    (keeps : (s : Stats) → kept (write_stats s).last ≡ counter s) where
  sum_of-kept :
      (xs : List Act)
      → sum_of column (act_all xs stats_init).lines ≡ kept (act_all xs stats_init).last
  unfolding act_all act probe_size probe_time sum_of
  sum_of-kept [] = sym zero
  sum_of-kept (sized type size ∷ xs) = sum_of-kept xs
  sum_of-kept (timed type start stop ∷ xs) = sum_of-kept xs
  sum_of-kept (written ∷ xs) =
      let s : Stats = act_all xs stats_init in
      entry s
      ∙ (ap (λ r. (counter s -ℤ kept s.last) +ℤ r) (sum_of-kept xs)
          ∙ (difference_sum (kept s.last) (counter s) ∙ sym (keeps s)))

  sum_of-counter :
      (xs : List Act)
      → sum_of column (act_all (written ∷ xs) stats_init).lines ≡ counter (act_all xs stats_init)
  unfolding act_all act
  sum_of-counter xs = sum_of-kept (written ∷ xs) ∙ keeps (act_all xs stats_init)

-- Whatever is counted, and whenever lines are written, once a last line is written: the columns for the bytes read, written and processed
-- and the one for the idle time, each before it is put into units, add up to what was counted in all.
pub write_stats-Sums :
    (xs : List Act)
    → let ls = (act_all (written ∷ xs) stats_init).lines in
      (sum_of (λ l. l.read) ls ≡ sized_by network_read_size xs)
      × (sum_of (λ l. l.write) ls ≡ sized_by network_write_size xs)
      × (sum_of (λ l. l.process) ls ≡ sized_by processed_data_size xs)
      × (sum_of (λ l. l.idle) ls ≡ timed_by ProbeTime.idle xs)
unfolding write_stats sum_of
write_stats-Sums xs = (
  sum_of-counter (λ l. l.read) (λ k. k.read) (λ s. s.sizes 2) refl (λ s. refl) (λ s. refl) xs
      ∙ sizes-sized_by network_read_size xs,
  sum_of-counter (λ l. l.write) (λ k. k.write) (λ s. s.sizes 3) refl (λ s. refl) (λ s. refl) xs
      ∙ sizes-sized_by network_write_size xs,
  sum_of-counter (λ l. l.process) (λ k. k.process) (λ s. s.sizes 4) refl (λ s. refl) (λ s. refl) xs
      ∙ sizes-sized_by processed_data_size xs,
  sum_of-counter (λ l. l.idle) (λ k. k.idle) (λ s. s.times 7) refl (λ s. refl) (λ s. refl) xs
      ∙ times-timed_by ProbeTime.idle xs,
)
