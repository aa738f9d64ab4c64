-- ===== src/Examples/Descriptors.antt =====
-- The descriptor 7, of an object at the place 1, and a file_object that shares it.
use asio_uring.Base.{
  ◌+◌, done, failed, refl, ◌==◌, none, some, [], ◌∷◌, false, ok, arith, Safe, Bool-cases, inl, inr,
  returns,
}
use asio_uring.EventfdQueue.Nodes.{update}
use asio_uring.Fd.{Table, assigns}
use asio_uring.Fd.Ownership.{Owned, exec-Owned}
use asio_uring.FileObject.{File, invokes}
use asio_uring.FileObject
use asio_uring.Asio.Objects.{Fcntl}
use asio_uring.Fd
use asio_uring.FileObject.Lifetime.{Shared, Settled, exec-Shared}

-- The places 1 and 2 have the descriptors 7 and 8.
abbrev two_descriptors : Table
two_descriptors = record {
  handle = update (update (λ i. none) 1 (some 7)) 2 (some 8);
  opened = 7 ∷ 8 ∷ [];
}

two-Owned : Owned two_descriptors
two-Owned = record {
  live = λ i h e. ground arith;
  unique = λ i j h e f. ground arith;
  owner =
      λ h n. elim (Bool-cases (h == 7)) [ inl e ↦ (1, ground arith) | inr e ↦ (2, ground arith) ];
}

exec-Owned_example : Safe (λ _ d. Owned d) Owned (Fd.exec (assigns 1 2) two_descriptors)
exec-Owned_example = exec-Owned (assigns 1 2) two_descriptors (omega arith) two-Owned

-- `fcntl` that does not let the flags be set
abbrev refusing : Fcntl
refusing = record {
  get_flags = λ fd. done 2;
  set_flags = λ fd n. failed 1;
  nonblocking = λ n. n + 2048;
}

-- The descriptor 7, after the file_object was reset, while the handler 5 holds it.
abbrev one_handler : File
one_handler = record {
  table = record { handle = update (λ i. none) 1 (some 7); opened = 7 ∷ [] };
  block = 1;
  count = 1;
  attached = false;
  holding = 5 ∷ [];
  locals = 0;
}

one-Shared : Shared one_handler
one-Shared = record {
  owned = record {
    live = λ i h e. ground arith;
    unique = λ i j h e f. ground arith;
    owner = λ h n. (1, ground arith);
  };
  counted = refl;
  live = λ _ e. ground arith;
  gone = λ h. ground arith;
}

exec-Shared_example :
    Safe
      (λ _ d. Settled one_handler d)
      (Settled one_handler)
      (FileObject.exec (invokes 5 (ok tt)) one_handler)
exec-Shared_example =
    exec-Shared (invokes 5 (ok tt)) one_handler (refl, λ s x. returns (x, refl)) one-Shared
