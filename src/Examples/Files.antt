-- ===== src/Examples/Files.antt =====
-- A file of the handle 5, on the service and with the descriptor of the other examples.
use asio_uring.Base.{
  ℕ, ◌≡◌, refl, none, some, List, [], ◌∷◌, true, arith, Safe, returns, ok, false, leb,
  if◌then◌else◌, map, ◌++◌,
}
use asio_uring.EventfdQueue.Nodes.{update, allocated_at}
use asio_uring.Context.Simulation.{machine, fresh_context}
use asio_uring.Service.Pool.{Service, no_iovs}
use asio_uring.FileObject.Lifetime.{Shared}
use asio_uring.Asio.Iovec.{Buffer, Iovec, iovec_of, to_iovecs, store_in, to_iovecs-bounds}
use asio_uring.Asio.Initiate.{Preps, Start, Wrapper, rw_completion}
use asio_uring.Context.Platform.{Cqe, external}
use asio_uring.Service.Complete.{Holding}
use asio_uring.Io.Codes.{pos, success}
use asio_uring.Asio.RoundTrip.{Ending, Between, Over, operate, operate-Over}
use asio_uring.Asio.Guarantee.{Ready}
use asio_uring.Asio.Calls.{Environment}
use asio_uring.Asio.Files.{IoFile, read_at, exec}
use asio_uring.Asio.Operations.{Held, Dropped, exec-Held}
use asio_uring.Io.Sockets.{Connected}
use asio_uring.Asio.Posts
use asio_uring.Asio.Immediate.{Posting, Posted, exec-Undertaken}

abbrev pub two_buffers : List Buffer
two_buffers = record { data_address = 100; size = 8 } ∷ record { data_address = 200; size = 4 } ∷ []

abbrev blank_iovec : Iovec
blank_iovec = record { iov_base = 0; iov_len = 0 }

to_iovecs-bounds_example :
    to_iovecs store_in two_buffers 0 (some (blank_iovec ∷ []))
    ≡ (if leb 2 1 then some (map iovec_of two_buffers ++ []) else none)
to_iovecs-bounds_example = to_iovecs-bounds two_buffers (blank_iovec ∷ [])

abbrev pub no_preps : Preps machine
no_preps = record {
  readv = λ s fd v n o w. w;
  writev = λ s fd v n o w. w;
  poll_add = λ s fd m w. w;
  poll_remove = λ s d w. w;
  fsync = λ s fd b w. w;
}

abbrev pub usual_start : Start machine
usual_start = record {
  store = λ v i x w. w;
  capacity_for = λ n. n;
  tag = λ c. c;
  allocation = allocated_at 3;
  not_stored = none;
}

abbrev pub open_file : IoFile machine
open_file = record {
  file = record {
    table = record { handle = update (λ i. none) 1 (some 7); opened = 7 ∷ [] };
    block = 1;
    count = 1;
    attached = true;
    holding = [];
    locals = 0;
  };
  impl = 5;
  service = record {
    ctx = fresh_context;
    free = [];
    in_use = [];
    held = [];
    wrapped = λ c. none;
    iovs = λ c. no_iovs;
    cache = [];
    allocated = [];
  };
}

pub open-Shared : Shared open_file.file
open-Shared = record {
  owned = record {
    live = λ i h e. ground arith;
    unique = λ i j h e f. ground arith;
    owner = λ h n. (1, ground arith);
  };
  counted = refl;
  live = λ _ e. ground arith;
  gone = λ h. ground arith;
}

pub open-Ready : Ready usual_start open_file.service
open-Ready = record {
  writes = λ w. refl;
  sound = record {
    placed = λ c. omega arith;
    once = λ c. omega arith;
    apart = λ c z. refl;
    bare = λ c z. refl;
    paid = omega arith;
    room = omega arith;
    cleared = tt;
  };
  unused = refl;
  room = omega arith;
}

exec-Held_example :
    Safe
      (λ _ d. Held rw_completion 70 open_file d)
      (Dropped open_file)
      (exec no_preps usual_start (read_at 0 two_buffers) 70 open_file)
exec-Held_example =
    exec-Held no_preps usual_start (read_at 0 two_buffers) 70 open_file open-Ready open-Shared refl

machine-Posting : Posting machine
machine-Posting = record { allocates = λ w. refl; writes = λ w. refl }

-- The connection is refused.
abbrev refused : Connected (Unit {0})
refused = record { error = some 111; connected = false; world = tt }

exec-Undertaken_example :
    Safe
      (λ _ d. Posted 70 open_file d)
      (Dropped open_file)
      (Posts.exec no_preps usual_start (λ h args. h) none (Posts.connect refused) 70 open_file)
exec-Undertaken_example =
    exec-Undertaken no_preps usual_start (λ h args. h) none 70 open_file machine-Posting open-Ready
      open-Shared refl (Posts.connect refused)

-- The operation of the handler 70 is under way in the completion 3, and its entry is taken off the ring
-- in the loop of the thread 1.
abbrev reading : Wrapper
reading = record { kind = rw_completion; handler = 70 }

abbrev under_way : Service machine Wrapper
under_way = record open_file.service {
  ctx = record fresh_context { work = 2; tid = some 1 };
  in_use = 3 ∷ [];
  held = (5, 3) ∷ [];
  wrapped = update (λ c. none) 3 (some reading);
  allocated = 3 ∷ [];
}

under_way-Holding : Holding 3 reading under_way
under_way-Holding = (
  record {
    placed = λ c. omega arith;
    once = λ c. ground arith;
    apart = λ c z. ground arith;
    bare = λ c z. ground arith;
    paid = omega arith;
    room = omega arith;
    cleared = tt;
  },
  refl,
  refl,
)

-- A handler that does nothing, in the thread 1
abbrev quiet_users : Environment machine
quiet_users = record {
  thread = 1;
  aborted = success;
  int_of = pos;
  user = λ h a s. ok tt s;
  bind = λ h a. h;
}

abbrev twelve_bytes : Cqe ℕ
twelve_bytes = record { user_data = external 3; res = 12 }

-- The read that exec-Held begins, and its entry in the loop of the thread 1
abbrev later : Ending machine
later = record { env = λ c. record c { tid = some 1 }; cqe = twelve_bytes }

later-Between : Between quiet_users later reading
later-Between = record {
  same_work = λ c. refl;
  in_loop = λ c. refl;
  calm = λ a s. returns (refl, refl, refl);
}

operate-Over_example :
    Safe
      (λ _ d. Over quiet_users later open_file d)
      (Over quiet_users later open_file)
      (operate quiet_users later no_preps usual_start (read_at 0 two_buffers) 70 open_file)
operate-Over_example =
    operate-Over quiet_users later no_preps usual_start (read_at 0 two_buffers) 70 open_file
      open-Ready open-Shared refl later-Between
