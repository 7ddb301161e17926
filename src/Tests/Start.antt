-- ===== src/Tests/Start.antt =====
-- The theorems on the start of cloudfs/ and on its TCP client at concrete inputs.
use cloudfs.Base.{◌≡◌, refl, arith, ℕ, some, List, [], ◌∷◌, ◌++◌}
use cloudfs.Fs.State.{ok}
use cloudfs.Fs.Options.{CloudfsState, parsed, default_state, parse_arguments}
use cloudfs.Fs.Memory.{Machine, memory}
use cloudfs.Fs.Start.{StartCalls, exited, returned, run_cloudfs}
use cloudfs.Fs.Start.Mounted.{after_fuse, run_cloudfs_lem}
use cloudfs.Fs.Cloudlock.{Sockets, cloudlock_connect}
use cloudfs.Fs.Cloudlock.Received.{IsStream, cloudlock_connect_lem}
use cloudfs.Tests.Fs.{start}
use cloudfs.Tests.Buckets.{bucket}

-- A FUSE that leaves the mount point in the buffer of names.
abbrev calls : StartCalls Machine
calls = record {
  clnt_create = λ w. (some 1, w);
  set_timeout = λ client time w. w;
  set_retry_timeout = λ client time w. w;
  clnt_destroy = λ client w. w;
  deinitialize = λ w. w;
  fuse_main = λ state argv w. (0, record w { filled = argv });
}

-- -f "/x" -d -f "/y"
abbrev options : List (ℕ × List ℕ)
options = (b'f', b'/' ∷ b'x' ∷ []) ∷ (b'd', []) ∷ (b'f', b'/' ∷ b'y' ∷ []) ∷ []

-- With -? after them.
run_cloudfs_lem_example :
    ((st : CloudfsState) × (parse_arguments (λ text. 0) options ≡ parsed st)
      × (st.ssd_path ≡ default_state.ssd_path)
      × (run_cloudfs memory bucket calls (λ text. 0) (b'c' ∷ []) options start ≡ (
        returned,
        after_fuse (λ text. 0) memory bucket calls (b'c' ∷ []) start st (b'/' ∷ b'y' ∷ []),
      )))
    × (run_cloudfs memory bucket calls (λ text. 0) (b'c' ∷ []) (options ++ ((b'?', []) ∷ [])) start
        ≡ (exited, start))
run_cloudfs_lem_example =
    run_cloudfs_lem (λ text. 0) memory bucket calls (b'c' ∷ []) start options b'?' [] []
      (refl, (refl, (refl, tt))) refl (omega arith) (omega arith)

record Wire : Type 0 where
  waiting : List (List ℕ)
  shown : List ℕ

abbrev read_wire : List (List ℕ) → Wire → List ℕ × Wire
read_wire [] wire = ([], wire)
read_wire (chunk ∷ chunks) wire = (chunk, record wire { waiting = chunks })

abbrev sockets : Sockets Wire
sockets = record {
  errno = λ wire. 5;
  socket = λ wire. (some 3, wire);
  inet_pton = λ text wire. (some 1, wire);
  connect = λ fd addr port wire. (some tt, wire);
  read = λ fd size wire. let (chunk, wire') = read_wire wire.waiting wire in (some chunk, wire');
  fputs = λ text wire. (some tt, record wire { shown = wire.shown ++ text });
}

abbrev stream : IsStream sockets
stream = record {
  incoming = λ wire fd. wire.waiting;
  printed = λ wire. wire.shown;
  read_next = λ wire fd b bs chunks h. (record wire { waiting = chunks }, rw h refl, refl, refl);
  read_end = λ wire fd h. (wire, rw h refl, refl);
  fputs_all = λ wire text. (record wire { shown = wire.shown ++ text }, refl, refl, refl);
}

-- "ab", and "c" with a zero byte and "d" after it.
abbrev wire : Wire
wire = record { waiting = (b'a' ∷ b'b' ∷ []) ∷ (b'c' ∷ 0 ∷ b'd' ∷ []) ∷ []; shown = [] }

cloudlock_connect_lem_example :
    (w' : Wire) × (cloudlock_connect sockets 3 (b'h' ∷ []) 4500 wire ≡ (some (ok 0), w'))
    × (w'.shown ≡ b'a' ∷ b'b' ∷ b'c' ∷ [])
cloudlock_connect_lem_example =
    cloudlock_connect_lem sockets stream 3 (b'h' ∷ []) 4500 3 1 wire.waiting wire wire wire wire
      refl refl refl refl tt (omega arith)
