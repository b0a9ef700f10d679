-- ===== src/Cache/Formats.antt =====
-- common/cache/cache_topology.cpp: the capacity that is written, and the size of a stream.
use cpufb.Base.{
  ℕ, ◌*◌, ◌/◌, ◌%◌, ◌<◌, ◌≡◌, ◌≢◌, inl, inr, refl, ◌++◌, Bytes, codes, ◌==◌, max_u64, arith, min,
  max, Bool-cases,
}
use cpufb.Text.Decimal.{to_string}
use cpufb.Cache.Sizes.{
  kib, mib, gib, format_cache_capacity, recommended_stream_workset_bytes, minimum_stream_workset,
  cache_multiplier,
}

pub data UnitName : Bytes → ℕ → Type 0 where
  name_b : UnitName (codes " B") 1
  name_kib : UnitName (codes " KiB") kib
  name_mib : UnitName (codes " MiB") mib
  name_gib : UnitName (codes " GiB") gib

-- The text is a whole number and the name of its unit, the largest one that divides the capacity.
pub record Capacity (bytes : ℕ) (text : Bytes) : Type 0 where
  pub count : ℕ
  pub name : Bytes
  pub unit : ℕ
  pub named : UnitName name unit
  pub written : text ≡ to_string count ++ name
  pub exact : count * unit ≡ bytes
  pub largest : (other : Bytes) (v : ℕ) → UnitName other v → unit < v → 0 < bytes → bytes % v ≢ 0

larger :
    (bytes unit : ℕ)
    → 0 < unit
    → (unit < kib → bytes % kib ≢ 0)
    → (unit < mib → bytes % mib ≢ 0)
    → (unit < gib → bytes % gib ≢ 0)
    → (other : Bytes) (v : ℕ) → UnitName other v
    → unit < v
    → bytes % v ≢ 0
larger bytes unit p k m g other v name_b h = absurd (omega (arith, p, h))
larger bytes unit p k m g other v name_kib h = k h
larger bytes unit p k m g other v name_mib h = m h
larger bytes unit p k m g other v name_gib h = g h

-- The written capacity is exact.
pub format_cache_capacity-Capacity : (bytes : ℕ) → Capacity bytes (format_cache_capacity bytes)
unfolding format_cache_capacity
format_cache_capacity-Capacity bytes = elim (Bool-cases (bytes == 0)) [
  | inl a ↦ rw a (record {
    count = 0;
    name = codes " B";
    unit = 1;
    named = name_b;
    written = unfold to_string in refl;
    exact = ground arith;
    largest = λ o v n h p. absurd (ground arith);
  })
  | inr a ↦ elim (Bool-cases (bytes % gib == 0)) [
    | inl g ↦
        rw (a, g)
          (record {
            count = bytes / gib;
            name = codes " GiB";
            unit = gib;
            named = name_gib;
            written = refl;
            exact = ground arith;
            largest = λ o v n h p.
                larger bytes gib (omega arith) (ground arith) (ground arith) (ground arith) o v n h;
          })
    | inr g ↦ elim (Bool-cases (bytes % mib == 0)) [
      | inl m ↦
          rw (a, g, m)
            (record {
              count = bytes / mib;
              name = codes " MiB";
              unit = mib;
              named = name_mib;
              written = refl;
              exact = ground arith;
              largest = λ o v n h p.
                  larger bytes mib (omega arith) (ground arith) (ground arith) (ground arith) o v n
                    h;
            })
      | inr m ↦ elim (Bool-cases (bytes % kib == 0)) [
        | inl k ↦
            rw (a, g, m, k)
              (record {
                count = bytes / kib;
                name = codes " KiB";
                unit = kib;
                named = name_kib;
                written = refl;
                exact = ground arith;
                largest = λ o v n h p.
                    larger bytes kib (omega arith) (ground arith) (ground arith) (ground arith) o v
                      n h;
              })
        | inr k ↦
            rw (a, g, m, k)
              (record {
                count = bytes;
                name = codes " B";
                unit = 1;
                named = name_b;
                written = refl;
                exact = ground arith;
                largest = λ o v n h p.
                    larger bytes 1 (omega arith) (ground arith) (ground arith) (ground arith) o v n
                      h;
              })
      ]
    ]
  ]
]

-- The recommended size is four times the cache, at least 256 MiB, and at most what 64 bits hold.
pub recommended_stream_workset_bytes-max :
    (bytes : ℕ)
    → recommended_stream_workset_bytes bytes
      ≡ max minimum_stream_workset (min (bytes * cache_multiplier) max_u64)
unfolding recommended_stream_workset_bytes
recommended_stream_workset_bytes-max bytes = ground arith
