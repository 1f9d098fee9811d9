-- ===== src/Layout/Header.antt =====
-- include/ssd_index_defs.h: the metadata sector, written and read.
use mathlib.Core.Option.{some-injective}
use pipe_ann.Base.{
  ℕ, zero, suc, ◌-◌, ◌^◌, ◌<◌, ◌≡◌, refl, ap, ◌∙◌, subst, inl, inr, Bool, Option, none, some, List,
  ◌++◌, arith, ltb, if◌then◌else◌, Bool-cases, replicate,
}
use pipe_ann.Layout.{
  sector_len, Metadata, VectorType, derive_fields, payload_exceeds, init_temporary_fields,
}
use pipe_ann.Layout.Bytes.{to_bytes, then_read, then_read-to_bytes}

unfoldable pub vector_type_code : VectorType → ℕ
vector_type_code VectorType.raw = 0
vector_type_code VectorType.rabitq8 = 1

unfoldable pub vector_type_of : ℕ → Option VectorType
vector_type_of zero = some VectorType.raw
vector_type_of (suc zero) = some VectorType.rabitq8
vector_type_of (suc (suc c)) = none

-- The first sector after `save_to_disk_index`: the fields, over a page of zeros.
unfoldable pub save_to_disk_index : Metadata → List ℕ
unfolding vector_type_code
save_to_disk_index m =
    to_bytes 4 10
    ++ (to_bytes 4 1
        ++ (to_bytes 8 m.npoints
            ++ (to_bytes 8 m.data_dim
                ++ (to_bytes 8 m.entry_point
                    ++ (to_bytes 8 m.max_node_len
                        ++ (to_bytes 8 m.nnodes_per_sector
                            ++ (to_bytes 8 m.npts_cur_shard
                                ++ (to_bytes 8 m.attr_size
                                    ++ (to_bytes 8 m.range
                                        ++ (to_bytes 8 m.r_ood
                                            ++ (to_bytes 8 (vector_type_code m.vector_type)
                                                ++ replicate (sector_len - 88) 0)))))))))))

module _ (sizeof_t : ℕ) where
  -- What follows the reads: the fields that an old file lacks, and the derived fields.
  unfoldable pub finish_load : Bool → Metadata → Option Metadata
  finish_load sharded m = init_temporary_fields sizeof_t (record m {
    npts_cur_shard = if sharded then m.npts_cur_shard else m.npoints;
    attr_size = if ltb m.nr 7 then 0 else m.attr_size;
    range = if ltb m.nr 7 then 0 else m.range;
  })

  -- `R_ood` and the vector type stand in files of version 9 and 10 on.
  unfoldable pub load_tail : Bool → (ℕ → VectorType → Metadata) → ℕ → List ℕ → Option Metadata
  unfolding vector_type_of finish_load
  load_tail sharded build nr bs =
      let typed = λ (r : ℕ) (rest : List ℕ).
        if ltb nr 10
        then finish_load sharded (build r VectorType.raw)
        else then_read 8 rest (λ c _. elim (vector_type_of c) [
          | none ↦ none
          | some t ↦ finish_load sharded (build r t)
        ]) in
      if ltb nr 9 then typed 0 bs else then_read 8 bs typed

  unfoldable pub load_from_disk_index : Bool → List ℕ → Option Metadata
  unfolding load_tail
  load_from_disk_index sharded bs = then_read 4 bs λ nr bs. then_read 4 bs λ nc bs.
      then_read 8 bs λ npoints bs. then_read 8 bs λ data_dim bs. then_read 8 bs λ entry_point bs.
        then_read 8 bs λ max_node_len bs. then_read 8 bs λ nnodes_per_sector bs.
          then_read 8 bs λ npts_cur_shard bs. then_read 8 bs λ attr_size bs.
            then_read 8 bs λ range bs.
              load_tail sharded
                (λ r_ood vector_type. record {
                  nr = nr;
                  nc = nc;
                  npoints = npoints;
                  data_dim = data_dim;
                  entry_point = entry_point;
                  max_node_len = max_node_len;
                  nnodes_per_sector = nnodes_per_sector;
                  npts_cur_shard = npts_cur_shard;
                  attr_size = attr_size;
                  max_npts = 0;
                  range = range;
                  r_ood = r_ood;
                  vector_type = vector_type;
                  normal_node_len = 0;
                  range_dense = 0;
                  entry_point_id = 0;
                })
                nr bs

  -- Every field on disk fits its eight bytes.
  pub record IsStorable (m : Metadata) : Type 0 where
    pub npoints : m.npoints < 2 ^ 64
    pub data_dim : m.data_dim < 2 ^ 64
    pub entry_point : m.entry_point < 2 ^ 32
    pub max_node_len : m.max_node_len < 2 ^ 64
    pub nnodes_per_sector : m.nnodes_per_sector < 2 ^ 64
    pub npts_cur_shard : m.npts_cur_shard < 2 ^ 64
    pub attr_size : m.attr_size < 2 ^ 64
    pub range : m.range < 2 ^ 64
    pub r_ood : m.r_ood < 2 ^ 64

  -- What a load returns of a file that `save_to_disk_index` wrote from `m`.
  abbrev pub reloaded : Bool → Metadata → Metadata
  reloaded sharded m = record m {
    nr = 10;
    nc = 1;
    npts_cur_shard = if sharded then m.npts_cur_shard else m.npoints;
  }

  tail_back :
      (sharded : Bool) (build : ℕ → VectorType → Metadata) (r : ℕ) (t : VectorType) (rest : List ℕ)
      → r < 2 ^ 64
      → load_tail sharded build 10 (to_bytes 8 r ++ (to_bytes 8 (vector_type_code t) ++ rest))
        ≡ finish_load sharded (build r t)
  unfolding load_tail vector_type_code
  tail_back sharded build r VectorType.raw rest h =
      then_read-to_bytes 8 r _ _ h ∙ then_read-to_bytes 8 0 rest _ (omega arith)
  tail_back sharded build r VectorType.rabitq8 rest h =
      then_read-to_bytes 8 r _ _ h ∙ then_read-to_bytes 8 1 rest _ (omega arith)

  abbrev read_back : Metadata → Metadata
  read_back m = record m {
    nr = 10;
    nc = 1;
    max_npts = 0;
    normal_node_len = 0;
    range_dense = 0;
    entry_point_id = 0;
  }

  finish_load-read_back :
      (sharded : Bool) (m : Metadata)
      → finish_load sharded (read_back m) ≡ init_temporary_fields sizeof_t (reloaded sharded m)
  unfolding finish_load init_temporary_fields derive_fields payload_exceeds
  finish_load-read_back sharded m = refl

  load-save_raw :
      (sharded : Bool) (m : Metadata)
      → IsStorable m
      → load_from_disk_index sharded (save_to_disk_index m)
        ≡ init_temporary_fields sizeof_t (reloaded sharded m)
  unfolding load_from_disk_index save_to_disk_index
  load-save_raw sharded m v =
      then_read-to_bytes 4 10 _ _ (omega arith)
      ∙ (then_read-to_bytes 4 1 _ _ (omega arith)
          ∙ (then_read-to_bytes 8 m.npoints _ _ v.npoints
              ∙ (then_read-to_bytes 8 m.data_dim _ _ v.data_dim
                  ∙ (then_read-to_bytes 8 m.entry_point _ _ (omega (arith, v.entry_point))
                      ∙ (then_read-to_bytes 8 m.max_node_len _ _ v.max_node_len
                          ∙ (then_read-to_bytes 8 m.nnodes_per_sector _ _ v.nnodes_per_sector
                              ∙ (then_read-to_bytes 8 m.npts_cur_shard _ _ v.npts_cur_shard
                                  ∙ (then_read-to_bytes 8 m.attr_size _ _ v.attr_size
                                      ∙ (then_read-to_bytes 8 m.range _ _ v.range
                                          ∙ (tail_back sharded _ m.r_ood m.vector_type _ v.r_ood
                                              ∙ finish_load-read_back sharded m))))))))))

  derived_again :
      (sharded : Bool) (m : Metadata)
      → derive_fields sizeof_t (reloaded sharded (derive_fields sizeof_t m))
        ≡ reloaded sharded (derive_fields sizeof_t m)
  unfolding derive_fields
  derived_again sharded m = ground arith

  exceeds_again :
      (sharded : Bool) (m : Metadata)
      → payload_exceeds sizeof_t (reloaded sharded (derive_fields sizeof_t m))
        ≡ payload_exceeds sizeof_t m
  unfolding derive_fields payload_exceeds
  exceeds_again sharded m = refl

  -- Metadata that was derived and stored is loaded as it was, up to the version and the shard.
  pub load-save :
      (sharded : Bool) (m m' : Metadata)
      → init_temporary_fields sizeof_t m ≡ some m'
      → IsStorable m'
      → load_from_disk_index sharded (save_to_disk_index m') ≡ some (reloaded sharded m')
  unfolding init_temporary_fields
  load-save sharded m m' h v = elim (Bool-cases (payload_exceeds sizeof_t m)) [
    | inl e ↦ absurd (ground (arith, e))
    | inr e ↦
        let same : some (derive_fields sizeof_t m) ≡ some m' = rw e at h in
        load-save_raw sharded m' v
        ∙ subst
            (λ t. init_temporary_fields sizeof_t (reloaded sharded t) ≡ some (reloaded sharded t))
            (some-injective _ _ same)
            (rw (exceeds_again sharded m, e) (ap some (derived_again sharded m)))
  ]
