-- ===== src/Indexer/Api.antt =====
-- indexer/src/api.rs: the handler of /merkle-path. A result `none` is a panic of the handler.
use caligo.Prelude.{ℕ, ◌<◌, ◌≤◌, ◌^◌, ◌≡◌, true, false, Option, some, none, List, map, arith}
use caligo.Prelude.Tests.{◌==◌, if◌then◌else◌}
use caligo.Prelude.Lists.{length}
use caligo.Prelude.Bytes.{Bytes, contains}
use caligo.Prelude.Options.{◌>>=◌}
use caligo.Bn254.{Bn254}
use caligo.Tree.Inclusion.{climb}
use caligo.Relayer.Validate.{trim_0x}
use caligo.Indexer.Poseidon.{hash_pair}
use caligo.Indexer.Merkle.{MerkleProof, root, proof, find_commitment}
use caligo.Indexer.Merkle.Proofs.{find_commitment-proof}
use caligo.Indexer.State.{Hex, AppState, Follows}

pub data PathResponse : Type 0 where
  -- 400, 404, and 200 with root, path_elements, path_indices and leaf_index.
  bad_request not_found : PathResponse
  path : Bytes → List Bytes → List ℕ → ℕ → PathResponse

module _ ⦃bn : Bn254⦄ ⦃hex : Hex⦄ where
  open hex use {encode, decode}

  -- The body that a proof is answered with.
  abbrev pub path_of : MerkleProof → PathResponse
  path_of p = path (encode p.root) (map encode p.path_elements) p.path_indices p.leaf_index

  -- `match state.tree.find_commitment(…)`; `proof(index).unwrap()` panics where there is none.
  abbrev pub path_at : Option ℕ → AppState → Option PathResponse
  path_at none s = some not_found
  path_at (some index) s = do answer ← proof index s.tree; p ← answer; some (path_of p)

  unfoldable pub merkle_path : Bytes → AppState → Option PathResponse
  merkle_path commitment s = elim (decode (trim_0x commitment)) [
    | none ↦ some bad_request
    | some bytes ↦
        if length bytes == 32 then path_at (find_commitment bytes s.tree) s else some bad_request
  ]

module _ ⦃bn : Bn254⦄ ⦃hex : Hex⦄ {ls : List Bytes} {depth : ℕ} {s : AppState}
    (f : Follows ls depth s) where
  -- On an indexer state that follows a list of leaves within its capacity and u32, for a query
  -- that decodes to 32 bytes the handler of /merkle-path does not panic: it answers that an
  -- absent commitment is not found, and for one that is there it answers with the encoding of a
  -- proof with the tree's root whose siblings and directions lead from the commitment to that
  -- root.
  pub merkle_path-answers :
      (commitment bytes : Bytes)
      → hex.decode (trim_0x commitment) ≡ some bytes
      → length bytes ≡ 32
      → length ls ≤ 2 ^ depth
      → length ls < 2 ^ 32
      → (contains ls bytes ≡ false → merkle_path commitment s ≡ some not_found)
        × (contains ls bytes ≡ true
            → (p : MerkleProof) × (merkle_path commitment s ≡ some (path_of p))
              × (root s.tree ≡ some p.root)
              × (climb hash_pair bytes p.path_elements p.path_indices ≡ p.root))
  unfolding merkle_path
  merkle_path-answers commitment bytes good long room small =
      let (absent, present) = find_commitment-proof f.tree bytes room small in
      (
        λ h. ground (arith, good, long, absent h),
        λ h.
            let (index, p, found, run, top, leads) = present h in
            (p, ground (arith, good, long, found, run), top, leads),
      )
