-- ===== src/Stats/Tests.antt =====
-- Two counters, two lines; the unit needs no hypothesis.
use aio4c.Prelude.{◌≡◌, List, [], ◌∷◌}
use aio4c.Prelude.Int.{pos}
use aio4c.Stats.{ProbeTime, stats_init, network_read_size, network_write_size, processed_data_size}
use aio4c.Stats.Column.{
  Act, sized, timed, written, act_all, sized_by, timed_by, sum_of, write_stats-Sums,
}
use aio4c.Stats.Convert.{IsConverted, convert_size-IsConverted}
use aio4c.Stats.{convert_size}

abbrev acts : List Act
acts =
    sized network_read_size (pos 5)
    ∷ written
    ∷ timed ProbeTime.idle (record { seconds = pos 1; microseconds = pos 900000 })
        (record { seconds = pos 2; microseconds = pos 100 })
    ∷ sized network_read_size (pos 7)
    ∷ []

write_stats-Sums_example :
    let ls = (act_all (written ∷ acts) stats_init).lines in
    (sum_of (λ l. l.read) ls ≡ sized_by network_read_size acts)
    × (sum_of (λ l. l.write) ls ≡ sized_by network_write_size acts)
    × (sum_of (λ l. l.process) ls ≡ sized_by processed_data_size acts)
    × (sum_of (λ l. l.idle) ls ≡ timed_by ProbeTime.idle acts)
write_stats-Sums_example = write_stats-Sums acts

convert_size-IsConverted_example : IsConverted 1536 (convert_size 1536)
convert_size-IsConverted_example = convert_size-IsConverted 1536
