-- ===== src/Layout/Sectors.antt =====
-- Locations, sectors and the bytes of a record: no two records overlap.
use pipe_ann.Base.{
  ℕ, ◌+◌, ◌-◌, ◌*◌, ◌/◌, ◌%◌, ◌^◌, ◌≤◌, ◌<◌, ◌≡◌, ap, subst, ◌≢◌, ◌⊎◌, inl, inr, false, some, arith,
  dec_lt, ◌==◌, if◌then◌else◌, Bool-cases, trichotomy,
}
use mathlib.Core.Option.{some-injective}
use native.Mathlib.Nat.{mul-div_cancel, div-add-mod', mod-lt}
use pipe_ann.Layout.{
  VectorType, vector_bytes, vector_size, round_up, sector_len, div_round_up, Metadata,
  derive_fields, payload_exceeds, init_temporary_fields, disk_node, io_size_dense, loc_sector_no,
  sector_to_loc,
}

-- What the builder writes: as many records to a sector as fit, and records that hold a payload.
pub record IsLaid (m : Metadata) : Type 0 where
  pub fits : m.nnodes_per_sector * m.max_node_len ≤ sector_len
  pub nonempty : 0 < m.max_node_len

pub div_round_up-covers : (x : ℕ) → x ≤ div_round_up x sector_len * sector_len
unfolding div_round_up
div_round_up-covers x = ground arith

div_round_up_pos : (x : ℕ) → 0 < x → 0 < div_round_up x sector_len
unfolding div_round_up
div_round_up_pos x h = ground arith

pub mul_mono : (a b c : ℕ) → a ≤ b → a * c ≤ b * c
mul_mono a b c h = grind arith

packed_before :
    (n len qa ra qb rb : ℕ)
    → n * len ≤ sector_len
    → ra < n
    → rb < n
    → qa * n + ra < qb * n + rb
    → (1 + qa) * sector_len + ra * len + len ≤ (1 + qb) * sector_len + rb * len
packed_before n len qa ra qb rb fits ha hb h = elim (trichotomy qa qb) [
  | inl lt ↦ omega (arith, mul_mono (ra + 1) n len (omega arith))
  | inr (inl e) ↦
      let next : ra + 1 ≤ rb = omega (arith, ap (λ t. t * n) e) in
      omega (arith, mul_mono (ra + 1) rb len next)
  | inr (inr gt) ↦ absurd (omega (arith, mul_mono (qb + 1) qa n (omega arith)))
]

spread_before :
    (a b d len : ℕ)
    → a < b
    → len ≤ d * sector_len
    → (1 + a * d) * sector_len + len ≤ (1 + b * d) * sector_len
spread_before a b d len h fits = omega (arith, mul_mono (a + 1) b d (omega arith))

-- The place of a record in its group of sectors.
unfoldable pub slot_of : Metadata → ℕ → ℕ
slot_of m loc = if m.nnodes_per_sector == 0 then 0 else loc % m.nnodes_per_sector

-- A location is found again from its sector and its slot.
pub sector_to_loc-loc_sector_no :
    (m : Metadata) (loc : ℕ)
    → 0 < m.max_node_len
    → sector_to_loc m (loc_sector_no m loc) (slot_of m loc) ≡ loc
unfolding sector_to_loc loc_sector_no slot_of
sector_to_loc-loc_sector_no m loc h = elim (dec_lt 0 m.nnodes_per_sector) [
  | yes n ↦ ground (arith, div-add-mod' loc m.nnodes_per_sector)
  | no n ↦ ground (arith, mul-div_cancel loc (div_round_up_pos m.max_node_len h))
]

module _ (sizeof_t : ℕ) where
  -- Where a record begins in the file.
  unfoldable pub record_start : Metadata → ℕ → ℕ
  record_start m loc = loc_sector_no m loc * sector_len + (disk_node sizeof_t loc m).coords

  -- Where records are not empty and those of a sector fit in it, a record lies within the sectors that
  -- are read for it.
  pub record_in_io :
      (m : Metadata) (loc : ℕ)
      → IsLaid m
      → (disk_node sizeof_t loc m).coords + m.max_node_len ≤ io_size_dense m
  unfolding disk_node io_size_dense
  record_in_io m loc v = elim (dec_lt 0 m.nnodes_per_sector) [
    | yes n ↦
        let slot : loc % m.nnodes_per_sector < m.nnodes_per_sector = mod-lt loc n in
        let scaled : (loc % m.nnodes_per_sector + 1) * m.max_node_len
            ≤ m.nnodes_per_sector * m.max_node_len =
          grind arith in
        ground (arith, v.fits, scaled)
    | no n ↦ ground (arith, div_round_up-covers m.max_node_len)
  ]

  before_lem :
      (m : Metadata) (a b : ℕ)
      → IsLaid m
      → a < b
      → record_start m a + m.max_node_len ≤ record_start m b
  unfolding record_start loc_sector_no disk_node
  before_lem m a b v h = elim (dec_lt 0 m.nnodes_per_sector) [
    | yes n ↦ ground (
      arith,
      packed_before m.nnodes_per_sector m.max_node_len (a / m.nnodes_per_sector)
          (a % m.nnodes_per_sector) (b / m.nnodes_per_sector) (b % m.nnodes_per_sector) v.fits
          (mod-lt a n) (mod-lt b n)
          (omega (arith, div-add-mod' a m.nnodes_per_sector, div-add-mod' b m.nnodes_per_sector)),
    )
    | no n ↦ ground (
      arith,
      spread_before a b (div_round_up m.max_node_len sector_len) m.max_node_len h
          (div_round_up-covers m.max_node_len),
    )
  ]

  -- Where records are not empty and those of a sector fit in it, the bytes of the records at two
  -- locations are disjoint in the file.
  pub records_disjoint :
      (m : Metadata) (a b : ℕ)
      → IsLaid m
      → a ≢ b
      → (record_start m a + m.max_node_len ≤ record_start m b)
        ⊎ (record_start m b + m.max_node_len ≤ record_start m a)
  records_disjoint m a b v h = elim (trichotomy a b) [
    | inl l ↦ inl (before_lem m a b v l)
    | inr (inl e) ↦ absurd (h e)
    | inr (inr g) ↦ inr (before_lem m b a v g)
  ]

  -- The bytes that a vector takes.
  abbrev pub bytes_of_vector : VectorType → ℕ → ℕ
  bytes_of_vector VectorType.raw dim = dim * sizeof_t
  bytes_of_vector VectorType.rabitq8 dim =
      16 + (dim / 128 + (if dim % 128 == 0 then 0 else 1)) * 128

  -- They are counted without a wrap in 64 bits.
  abbrev pub IsCounted : VectorType → ℕ → Type 0
  IsCounted VectorType.raw dim = dim * sizeof_t < 2 ^ 64
  IsCounted VectorType.rabitq8 dim = dim < 2 ^ 60

  vector_bytes_lem :
      (t : VectorType) (dim : ℕ)
      → IsCounted t dim
      → vector_bytes sizeof_t t dim ≡ bytes_of_vector t dim
  unfolding vector_bytes vector_size round_up
  vector_bytes_lem VectorType.raw dim h = omega (arith, h)
  vector_bytes_lem VectorType.rabitq8 dim h = ground (arith, h)

  -- The parts of a record follow one another without overlap, and end within the record.
  pub record IsPacked (m : Metadata) (loc : ℕ) : Type 0 where
    pub vector_end :
        (disk_node sizeof_t loc m).coords + bytes_of_vector m.vector_type m.data_dim
        ≤ (disk_node sizeof_t loc m).nnbrs
    pub degree_end : (disk_node sizeof_t loc m).nnbrs + 2 ≤ (disk_node sizeof_t loc m).n_dense_nbrs
    pub dense_end : (disk_node sizeof_t loc m).n_dense_nbrs + 2 ≤ (disk_node sizeof_t loc m).nbrs
    pub nbrs_end : (disk_node sizeof_t loc m).nbrs + m.range * 4 ≤ (disk_node sizeof_t loc m).attrs
    pub attrs_end :
        (disk_node sizeof_t loc m).attrs + m.attr_size ≤ (disk_node sizeof_t loc m).dense_nbrs
    pub compact_end :
        (disk_node sizeof_t loc m).dense_nbrs
        ≤ (disk_node sizeof_t loc m).coords + m.normal_node_len
    pub record_end :
        (disk_node sizeof_t loc m).dense_nbrs + (m.range_dense - m.range) * 4
        ≤ (disk_node sizeof_t loc m).coords + m.max_node_len
    pub degrees : (m.range ≤ m.range_dense) × (m.r_ood ≤ m.range)

  derived-IsPacked :
      (m : Metadata) (loc : ℕ)
      → IsCounted m.vector_type m.data_dim
      → payload_exceeds sizeof_t m ≡ false
      → IsPacked (derive_fields sizeof_t m) loc
  unfolding derive_fields payload_exceeds disk_node
  derived-IsPacked m loc c h =
      let e = vector_bytes_lem m.vector_type m.data_dim c in ground (arith, e)

  -- Metadata that passes the test of `init_temporary_fields`, and whose vector is counted without a
  -- wrap in 64 bits, describes well-formed records: the parts follow one another without overlap, the
  -- first of them as long as the vector, and the last ends within the record.
  pub init_temporary_fields-IsPacked :
      (m m' : Metadata) (loc : ℕ)
      → IsCounted m.vector_type m.data_dim
      → init_temporary_fields sizeof_t m ≡ some m'
      → IsPacked m' loc
  unfolding init_temporary_fields
  init_temporary_fields-IsPacked m m' loc c h = elim (Bool-cases (payload_exceeds sizeof_t m)) [
    | inl e ↦ absurd (ground (arith, e))
    | inr e ↦
        let same : some (derive_fields sizeof_t m) ≡ some m' = rw e at h in
        subst (λ t. IsPacked t loc) (some-injective _ _ same) (derived-IsPacked m loc c e)
  ]
