-- ===== src/Graph/Partition.antt =====
-- `DataLoader::readPartsFile` of graph-server/graph/dataloader.cpp.
use dorylus.Prelude.{ℕ, List, [], ◌∷◌, ◌++◌, ◌==◌, if◌then◌else◌, add32}
use dorylus.Prelude.Map.{insert, nat_order}
use dorylus.Graph.Defs.{RawGraph}

-- What the test of its first character and `iss >> partId` make of a line.
pub data PartsLine : Type 0 where
  skipped failed : PartsLine
  part_id : ℕ → PartsLine

module _ {A : Type 0} where
  -- One number of the file, with the next local and global ids.
  unfoldable pub add_vertex : ℕ → ℕ → ℕ → ℕ → RawGraph A → RawGraph A × ℕ × ℕ
  add_vertex node_id p lvid gvid g =
      let ids = g.vertex_partition_ids ++ p ∷ [] in
      if p == node_id
      then (
        record g {
          vertex_partition_ids = ids;
          local_to_global_id = insert lvid gvid g.local_to_global_id;
          global_to_local_id = insert gvid lvid g.global_to_local_id;
        },
        add32 lvid 1,
        add32 gvid 1,
      )
      else (record g { vertex_partition_ids = ids }, lvid, add32 gvid 1)

  unfoldable pub read_parts_loop : ℕ → List PartsLine → ℕ → ℕ → RawGraph A → RawGraph A × ℕ × ℕ
  read_parts_loop node_id [] lvid gvid g = (g, lvid, gvid)
  read_parts_loop node_id (skipped ∷ ls) lvid gvid g = read_parts_loop node_id ls lvid gvid g
  read_parts_loop node_id (failed ∷ ls) lvid gvid g = (g, lvid, gvid)
  read_parts_loop node_id (part_id p ∷ ls) lvid gvid g =
      let (g', lvid', gvid') = add_vertex node_id p lvid gvid g in
      read_parts_loop node_id ls lvid' gvid' g'

  unfoldable pub read_parts_file : ℕ → List PartsLine → RawGraph A → RawGraph A
  read_parts_file node_id ls g =
      let (g', lvid, gvid) = read_parts_loop node_id ls 0 0 g in
      record g' { num_global_vertices = gvid; num_local_vertices = lvid }
