-- ===== src/Layout/Tests.antt =====
-- The layout of one index: 32 floats and 31 neighbours to a record, 16 records to a sector.
use pipe_ann.Base.{◌+◌, ◌≤◌, ◌≡◌, refl, ◌⊎◌, false, some, arith, length}
use pipe_ann.Layout.{
  sector_len, Metadata, VectorType, vector_bytes, derive_fields, payload_exceeds,
  init_temporary_fields, disk_node, io_size_dense, loc_sector_no, sector_to_loc,
}
use pipe_ann.Layout.Sectors.{
  IsLaid, slot_of, record_start, IsPacked, sector_to_loc-loc_sector_no, record_in_io,
  records_disjoint, init_temporary_fields-IsPacked,
}
use pipe_ann.Layout.Bytes.{to_bytes}
use pipe_ann.Layout.Header.{save_to_disk_index, load_from_disk_index, IsStorable, load-save}

abbrev blank : Metadata
blank = record {
  nr = 0;
  nc = 0;
  npoints = 100;
  data_dim = 32;
  entry_point = 5;
  max_node_len = 256;
  nnodes_per_sector = 16;
  npts_cur_shard = 100;
  attr_size = 0;
  max_npts = 0;
  range = 0;
  r_ood = 8;
  vector_type = VectorType.raw;
  normal_node_len = 0;
  range_dense = 0;
  entry_point_id = 0;
}

abbrev small : Metadata
small = record blank {
  max_npts = 100;
  range = 31;
  range_dense = 31;
  normal_node_len = 256;
  entry_point_id = 5;
}

init-blank : init_temporary_fields 4 blank ≡ some small
unfolding init_temporary_fields derive_fields payload_exceeds vector_bytes
init-blank = refl

small-IsLaid : IsLaid small
small-IsLaid = record { fits = omega arith; nonempty = omega arith }

-- The 17th record opens the second sector of records.
seventeenth : record_start 4 small 16 ≡ 8192
unfolding record_start loc_sector_no disk_node vector_bytes
seventeenth = refl

stored_length : length (save_to_disk_index small) ≡ sector_len
unfolding save_to_disk_index to_bytes
stored_length = refl

sector_to_loc-loc_sector_no_run :
    sector_to_loc small (loc_sector_no small 37) (slot_of small 37) ≡ 37
sector_to_loc-loc_sector_no_run = sector_to_loc-loc_sector_no small 37 (omega arith)

record_in_io_example : (disk_node 4 37 small).coords + 256 ≤ io_size_dense small
record_in_io_example = record_in_io 4 small 37 small-IsLaid

records_disjoint_example :
    (record_start 4 small 3 + 256 ≤ record_start 4 small 20)
    ⊎ (record_start 4 small 20 + 256 ≤ record_start 4 small 3)
records_disjoint_example = records_disjoint 4 small 3 20 small-IsLaid (omega arith)

init_temporary_fields-IsPacked_example : IsPacked 4 small 3
init_temporary_fields-IsPacked_example =
    init_temporary_fields-IsPacked 4 blank small 3 (omega arith) init-blank

small-IsStorable : IsStorable 4 small
small-IsStorable = omega arith

load-save_example :
    load_from_disk_index 4 false (save_to_disk_index small)
    ≡ some (record small { nr = 10; nc = 1 })
load-save_example = load-save 4 false blank small init-blank small-IsStorable
