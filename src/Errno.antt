-- ===== src/Errno.antt =====
-- `enum errno` of src/common/std.h; `no_error` is the value 0.
pub data Errno : Type 0 where
  no_error enoent ebadf enotdir eisdir einval epath eexist eacces eio enametoolong enomem enosys :
      Errno
  enotempty eperm enoexec e2big enospc emfile : Errno
