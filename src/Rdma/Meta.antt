-- ===== src/Rdma/Meta.antt =====
-- What clients and memory node tell each other, and what a client thread works with:
-- `write_metadata_to_file` of litl2/src/rdma_server.c, and `read_mn_metadata_file`,
-- `write_metadata_to_file`, `read_peer_metadata_files` and `populate_mn_client_meta` of
-- litl2/src/rdma_client.c. Lines of text are the C library's: `fprintf` with "%lu %u\n" and
-- `sscanf` of the same format are parameters.
use dal.Prelude.{
  ℕ, zero, suc, ◌^◌, ◌<◌, ◌≡◌, refl, Bool, true, Option, none, some, List, [], ◌∷◌, if◌then◌else◌,
  ℤ, pos, negsuc, neg,
}

-- The address and the key of a registered region.
pub record Region : Type 0 where
  pub addr : ℕ  -- uint64_t
  pub rkey : ℕ  -- uint32_t

abbrev pub IsRegion : Region → Type 0
IsRegion r = (r.addr < 2 ^ 64) × (r.rkey < 2 ^ 32)

-- A line in a file; `scan` leaves what it cannot read as it was.
pub record LineFormat : Type 1 where
  pub Line : Type 0
  pub print : Region → Line
  pub scan : Line → Region → Region
  pub scan-print : (r old : Region) → IsRegion r → scan (print r) old ≡ r

-- What a client knows of the memory node.
pub record Node : Type 0 where
  pub block : Region
  pub rlock : Region
  pub rshutdown : Region

-- What it knows of a peer.
pub record Peer : Type 0 where
  pub block : Region
  pub cas : Region

-- The files that server and client name: below /nfs, below the server's working directory and
-- below the client's.
pub data Place : Type 0 where
  nfs below_server below_client : Place

module _ (format : LineFormat) where
  open format use {Line, print, scan, scan-print}

  abbrev Files : Type 0
  Files = Place → Option (List Line)

  abbrev put : Files → Place → List Line → Files
  put files nfs ls nfs = some ls
  put files nfs ls below_server = files below_server
  put files nfs ls below_client = files below_client
  put files below_server ls nfs = files nfs
  put files below_server ls below_server = some ls
  put files below_server ls below_client = files below_client
  put files below_client ls nfs = files nfs
  put files below_client ls below_server = files below_server
  put files below_client ls below_client = some ls

  abbrev pub server_lines : Node → List Line
  server_lines n = print n.block ∷ print n.rlock ∷ print n.rshutdown ∷ []

  -- The server's `write_metadata_to_file`: `can` says where `fopen` succeeds, `errno` what it
  -- leaves else.
  unfoldable pub write_server : (can : Place → Bool) → (errno : ℕ) → Node → Files → ℤ × Files
  write_server can errno n files =
      if can nfs
      then (pos 0, put files nfs (server_lines n))
      else if can below_server
      then (pos 0, put files below_server (server_lines n))
      else (neg (pos errno), files)

  -- switch (i)
  abbrev read_node_line : (i : ℕ) → Line → Node → Node
  read_node_line zero l n = record n { block = scan l n.block }
  read_node_line (suc zero) l n = record n { rlock = scan l n.rlock }
  read_node_line (suc (suc zero)) l n = record n { rshutdown = scan l n.rshutdown }
  read_node_line (suc (suc (suc i))) l n = n

  -- while (fgets(...))
  unfoldable pub read_node_lines : (i : ℕ) → List Line → Node → Node
  read_node_lines i [] n = n
  read_node_lines i (l ∷ ls) n = read_node_lines (suc i) ls (read_node_line i l n)

  abbrev pub read_node_file : Option (List Line) → Node → ℤ × Node
  read_node_file none n = (negsuc 0, n)
  read_node_file (some ls) n = (pos 0, read_node_lines 0 ls n)

  abbrev pub or_else : Option (List Line) → Option (List Line) → Option (List Line)
  or_else none b = b
  or_else (some a) b = some a

  unfoldable pub read_mn_metadata_file : Files → Node → ℤ × Node
  unfolding read_node_lines
  read_mn_metadata_file files n = read_node_file (or_else (files below_client) (files nfs)) n

  -- The client's own file, and how a peer reads it.
  abbrev pub client_lines : Peer → List Line
  client_lines p = print p.block ∷ print p.cas ∷ []

  abbrev read_peer_line : (i : ℕ) → Line → Peer → Peer
  read_peer_line zero l p = record p { block = scan l p.block }
  read_peer_line (suc i) l p = record p { cas = scan l p.cas }

  unfoldable pub read_peer_lines : (i : ℕ) → List Line → Peer → Peer
  read_peer_lines i [] p = p
  read_peer_lines i (l ∷ ls) p = read_peer_lines (suc i) ls (read_peer_line i l p)

  -- A client that finds no file below its own working directory reads from /nfs exactly what the server wrote there: the addresses and keys of data, locks and shutdown word.
  pub read_mn-write_server :
      (can : Place → Bool) (errno : ℕ) (n old : Node) (files : Files)
      → can nfs ≡ true
      → files below_client ≡ none
      → IsRegion n.block
      → IsRegion n.rlock
      → IsRegion n.rshutdown
      → read_mn_metadata_file (write_server can errno n files).1 old ≡ (pos 0, n)
  unfolding read_mn_metadata_file write_server read_node_lines
  read_mn-write_server can errno n old files allowed no_own d l s =
      rw
        (
          allowed,
          no_own,
          scan-print n.block old.block d,
          scan-print n.rlock old.rlock l,
          scan-print n.rshutdown old.rshutdown s,
        )
        refl

  -- A peer reads from a client's file exactly the regions that the client wrote.
  pub read_peer-client :
      (p old : Peer)
      → IsRegion p.block
      → IsRegion p.cas
      → read_peer_lines 0 (client_lines p) old ≡ p
  unfolding read_peer_lines
  read_peer-client p old d c = rw (scan-print p.block old.block d, scan-print p.cas old.cas c) refl
