-- ===== src/Errno.antt =====
-- The error numbers that the core code returns and compares, as negative `int`s. Their values belong
-- to the kernel's errno.h; only that they differ matters here. `other n` is any number not listed.
use greybus.Base.{Bool, true, false, ℕ}

pub data Errno : Type 0 where
  success einprogress ebadr eilseq enotconn einval enomem eio eprotonosupport emsgsize eagain
        eintr :
      Errno
  etimedout enodev eshutdown ecanceled eexist enoent enotsupp efault e2big enospc eremoteio ebusy
        erange :
      Errno
  other : ℕ → Errno

-- `!ret`
abbrev pub is_success : Errno → Bool
is_success success = true
is_success e = false

abbrev pub is_einprogress : Errno → Bool
is_einprogress einprogress = true
is_einprogress e = false

abbrev pub is_ebadr : Errno → Bool
is_ebadr ebadr = true
is_ebadr e = false
