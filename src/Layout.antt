-- ===== src/Layout.antt =====
-- include/ssd_index_defs.h: `SSDIndexMetadata` and `DiskNode`, the layout of the index file, and
-- include/utils.h: `DIV_ROUND_UP`. `sizeof_t` is sizeof(T).
pub mod Sectors
pub mod Bytes
pub mod Header
mod Tests
use pipe_ann.Base.{
  ℕ, zero, suc, ◌+◌, ◌-◌, ◌*◌, ◌/◌, ◌%◌, ◌^◌, ◌≤◌, ◌<◌, min, max, ◌≡◌, refl, sym, ap, ◌∙◌, subst,
  ◌≢◌, ◌↔◌, ◌⊎◌, inl, inr, Bool, true, false, ◌&&◌, ◌||◌, not, Option, none, some, List, [], ◌∷◌,
  ◌++◌, map, reverse, append-nil, append_assoc, arith, dec_lt, dec_le, ℕ_discrete, ltb, leb, ◌==◌,
  if◌then◌else◌, ltb→lt, lt→ltb, leb→le, ltb_false→le, le→ltb_false, ==→eq, ==_self, ne→==_false,
  ==_false→ne, tests, Bool-cases, Option-cases, trichotomy, All, length, get_elem?, get_or, set,
  take, drop, replicate, length-append, length-set, length-take, length-drop, length-replicate,
  take-append-drop, take_all, get_or-set_self, get_or-set_ne, get_or-take, memmove, All-append,
  All-take, All-drop, All-get_or,
}

-- SECTOR_LEN
abbrev pub sector_len : ℕ
sector_len = 4096

unfoldable pub div_round_up : ℕ → ℕ → ℕ
div_round_up x y = x / y + (if x % y == 0 then 0 else 1)

unfoldable pub round_up : ℕ → ℕ → ℕ
round_up x y = (x / y + (if x % y == 0 then 0 else 1)) * y

pub data VectorType : Type 0 where
  raw : VectorType
  rabitq8 : VectorType

-- `RaBitQQuantizer<T, 8>::vector_size`: the header of two floats and a padded code of 8 bits each.
-- The arithmetic is that of 64 bits.
unfoldable pub vector_size : ℕ → ℕ
unfolding round_up
vector_size dim = (16 + (round_up dim 128 % 2 ^ 64 * 8) % 2 ^ 64 / 8) % 2 ^ 64

pub record Metadata : Type 0 where
  pub nr : ℕ
  pub nc : ℕ
  pub npoints : ℕ
  pub data_dim : ℕ
  pub entry_point : ℕ
  pub max_node_len : ℕ
  pub nnodes_per_sector : ℕ
  pub npts_cur_shard : ℕ
  pub attr_size : ℕ
  pub max_npts : ℕ
  pub range : ℕ
  pub r_ood : ℕ
  pub vector_type : VectorType
  pub normal_node_len : ℕ
  pub range_dense : ℕ
  pub entry_point_id : ℕ

module _ (sizeof_t : ℕ) where
  unfoldable pub vector_bytes : VectorType → ℕ → ℕ
  unfolding vector_size
  vector_bytes VectorType.raw data_dim = (data_dim * sizeof_t) % 2 ^ 64
  vector_bytes VectorType.rabitq8 data_dim = vector_size data_dim

  abbrev pub payload : Metadata → ℕ
  payload m = vector_bytes m.vector_type m.data_dim

  -- The fields that are not on disk, once the payload is known to fit.
  unfoldable pub derive_fields : Metadata → Metadata
  derive_fields m =
      let dense = (m.max_node_len - payload m - m.attr_size) / 4 - 1 in
      let range' = if m.range == 0 || leb dense m.range then dense else m.range in
      record m {
        max_npts = m.npoints;
        range_dense = dense;
        range = range';
        r_ood = if ltb range' m.r_ood then 0 else m.r_ood;
        normal_node_len = m.max_node_len - (dense - range') * 4;
        entry_point_id = m.entry_point % 2 ^ 32;
      }

  unfoldable pub payload_exceeds : Metadata → Bool
  payload_exceeds m =
      ltb m.max_node_len (payload m)
      || (ltb (m.max_node_len - payload m) m.attr_size
          || ltb (m.max_node_len - payload m - m.attr_size) 4)

  -- `init_temporary_fields`; `none` is exit(-1).
  unfoldable pub init_temporary_fields : Metadata → Option Metadata
  init_temporary_fields m = if payload_exceeds m then none else some (derive_fields m)

  unfoldable pub u_loc_offset : Metadata → ℕ → ℕ
  u_loc_offset m loc = loc * m.max_node_len

  unfoldable pub u_loc_offset_nbr : Metadata → ℕ → ℕ
  u_loc_offset_nbr m loc = loc * m.max_node_len + payload m

  -- The offsets in a page buffer that the fields of a `DiskNode` refer to.
  pub record DiskNode : Type 0 where
    pub coords : ℕ
    pub nnbrs : ℕ
    pub n_dense_nbrs : ℕ
    pub nbrs : ℕ
    pub attrs : ℕ
    pub dense_nbrs : ℕ

  unfoldable pub disk_node : ℕ → Metadata → DiskNode
  disk_node loc m = record {
    coords = coords;
    nnbrs = coords + payload m;
    n_dense_nbrs = coords + payload m + 2;
    nbrs = coords + payload m + 4;
    attrs = coords + payload m + (1 + m.range) * 4;
    dense_nbrs = coords + payload m + (1 + m.range) * 4 + m.attr_size;
  }
    where
      coords : ℕ
      coords = if m.nnodes_per_sector == 0 then 0 else loc % m.nnodes_per_sector * m.max_node_len

unfoldable pub io_size : Metadata → ℕ
unfolding div_round_up
io_size m =
    sector_len
    * (if ltb 0 m.nnodes_per_sector then 1 else div_round_up m.normal_node_len sector_len)

unfoldable pub io_size_dense : Metadata → ℕ
unfolding div_round_up
io_size_dense m =
    sector_len * (if ltb 0 m.nnodes_per_sector then 1 else div_round_up m.max_node_len sector_len)

unfoldable pub nodes_per_io : Metadata → ℕ
nodes_per_io m = if ltb 0 m.nnodes_per_sector then m.nnodes_per_sector else 1

unfoldable pub loc_sector_no : Metadata → ℕ → ℕ
loc_sector_no m loc =
    1
    + (if ltb 0 m.nnodes_per_sector
        then loc / m.nnodes_per_sector
        else loc * div_round_up m.max_node_len sector_len)

unfoldable pub sector_to_loc : Metadata → ℕ → ℕ → ℕ
sector_to_loc m sector_no sector_off =
    if m.nnodes_per_sector == 0
    then (sector_no - 1) / div_round_up m.max_node_len sector_len
    else (sector_no - 1) * m.nnodes_per_sector + sector_off
