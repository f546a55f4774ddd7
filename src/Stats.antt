-- ===== src/Stats.antt =====
-- src/stats.c: the counters, what a line of the file of statistics reports of them, and the unit in which a size is printed.
-- A counter is a `double` that is only added whole numbers to: below 2 ^ 53 it is exact, and an integer here. A size that is
-- divided by 1024 is exact too, and is the bytes with the number of divisions.
pub mod Column
pub mod Convert
mod Tests
use aio4c.Prelude.{
  Option, some, none, ℕ, suc, ◌*◌, ◌^◌, ◌+◌, ltb, Bool, List, [], ◌∷◌, update, if◌then◌else◌,
}
use aio4c.Prelude.Int.{ℤ, pos, negsuc, ◌+ℤ◌, ◌-ℤ◌, ltb_ℤ}

-- `ProbeSizeType` and `ProbeTimeType`, with their indices in the tables.
pub data ProbeSize : Type 0 where
  memory_allocated_size buffer_allocated_size network_read_size network_write_size
        processed_data_size :
      ProbeSize
  connection_count memory_allocate_count memory_free_count latency_count : ProbeSize

pub data ProbeTime : Type 0 where
  memory_allocation buffer_allocation network_read network_write select_overhead : ProbeTime
  data_process block idle latency jni_overhead : ProbeTime

abbrev pub size_index : ProbeSize → ℕ
size_index memory_allocated_size = 0
size_index buffer_allocated_size = 1
size_index network_read_size = 2
size_index network_write_size = 3
size_index processed_data_size = 4
size_index connection_count = 5
size_index memory_allocate_count = 6
size_index memory_free_count = 7
size_index latency_count = 8

abbrev pub time_index : ProbeTime → ℕ
time_index memory_allocation = 0
time_index buffer_allocation = 1
time_index network_read = 2
time_index network_write = 3
time_index select_overhead = 4
time_index data_process = 5
time_index block = 6
time_index idle = 7
time_index latency = 8
time_index jni_overhead = 9

-- A quotient that is printed where the number tested is positive, and 0 (none) otherwise.
abbrev pub quotient_if : (tested above below : ℤ) → Option (ℤ × ℤ)
quotient_if tested above below = if ltb_ℤ (pos 0) tested then some (above, below) else none

-- What a line of `_WriteStats` prints, before it is put into units, and the static variables that it keeps. The latency is divided by
-- its count, and the overhead of select by the bytes written.
pub record Report : Type 0 where
  pub allocated : ℤ
  pub read : ℤ
  pub write : ℤ
  pub process : ℤ
  pub connections : ℤ
  pub idle : ℤ
  pub latency : Option (ℤ × ℤ)
  pub select_overhead : Option (ℤ × ℤ)

pub record Last : Type 0 where
  pub read : ℤ
  pub write : ℤ
  pub process : ℤ
  pub idle : ℤ
  pub latency : ℤ
  pub latency_count : ℤ
  pub select_overhead : ℤ

-- The tables of counters, the static variables, and the lines of the file, the newest first.
pub record Stats : Type 0 where
  pub times : ℕ → ℤ
  pub sizes : ℕ → ℤ
  pub last : Last
  pub lines : List Report

-- The static variables and `StatsInit`.
abbrev pub stats_init : Stats
stats_init = record {
  times = λ i. pos 0;
  sizes = λ i. pos 0;
  last = record {
    read = pos 0;
    write = pos 0;
    process = pos 0;
    idle = pos 0;
    latency = pos 0;
    latency_count = pos 0;
    select_overhead = pos 0;
  };
  lines = [];
}

-- `_ProbeSize`.
unfoldable pub probe_size : ProbeSize → ℤ → Stats → Stats
probe_size type size s = record s {
  sizes = update (size_index type) (s.sizes (size_index type) +ℤ size) s.sizes;
}

-- `struct timeval`.
pub record Time : Type 0 where
  pub seconds : ℤ
  pub microseconds : ℤ

-- A million times an integer.
abbrev pub million_times : ℤ → ℤ
million_times (pos n) = pos (1000000 * n)
million_times (negsuc n) = negsuc (1000000 * n + 999999)

-- `_ProbeTime`.
abbrev pub time_between : (start stop : Time) → ℤ
time_between start stop =
    million_times (stop.seconds -ℤ start.seconds) +ℤ (stop.microseconds -ℤ start.microseconds)

unfoldable pub probe_time : ProbeTime → (start stop : Time) → Stats → Stats
probe_time type start stop s = record s {
  times = update (time_index type) (s.times (time_index type) +ℤ time_between start stop) s.times;
}

-- `_WriteStats`, where the file is open.
unfoldable pub write_stats : Stats → Stats
write_stats s = record s {
  lines =
      record {
        allocated = s.sizes (size_index memory_allocated_size);
        read = s.sizes (size_index network_read_size) -ℤ s.last.read;
        write = s.sizes (size_index network_write_size) -ℤ s.last.write;
        process = s.sizes (size_index processed_data_size) -ℤ s.last.process;
        connections = s.sizes (size_index connection_count);
        idle = s.times (time_index ProbeTime.idle) -ℤ s.last.idle;
        latency =
            (let count = s.sizes (size_index ProbeSize.latency_count) -ℤ s.last.latency_count in
              quotient_if count (s.times (time_index ProbeTime.latency) -ℤ s.last.latency) count);
        select_overhead =
            (let overhead =
                s.times (time_index ProbeTime.select_overhead) -ℤ s.last.select_overhead in
              quotient_if overhead overhead
                (s.sizes (size_index network_write_size) -ℤ s.last.write));
      }
      ∷ s.lines;
  last = record {
    read = s.sizes (size_index network_read_size);
    write = s.sizes (size_index network_write_size);
    process = s.sizes (size_index processed_data_size);
    idle = s.times (time_index ProbeTime.idle);
    latency = s.times (time_index ProbeTime.latency);
    latency_count = s.sizes (size_index ProbeSize.latency_count);
    select_overhead = s.times (time_index ProbeTime.select_overhead);
  };
}

pub data SizeUnit : Type 0 where
  b kb mb gb tb : SizeUnit

-- Whether `bytes` divided by 1024 `n` times is less than 1024.
abbrev pub is_small : (bytes n : ℕ) → Bool
is_small bytes n = ltb bytes (1024 * 1024 ^ n)

-- `_ConvertSize`: how often the size is divided, and the unit.
unfoldable pub convert_size : (bytes : ℕ) → ℕ × SizeUnit
convert_size bytes =
    if is_small bytes 0
    then (0, b)
    else if is_small bytes 1
    then (1, kb)
    else if is_small bytes 2
    then (2, mb)
    else if is_small bytes 3
    then (3, gb)
    else (4, tb)
