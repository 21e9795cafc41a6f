-- ===== src/System.antt =====
-- What the code asks of the operating system: its file calls, the commands that it runs and the
-- files that it fetches. An operation is a tree of such calls, each of which goes on for every
-- answer that the system may give.
pub mod Paths
pub mod Components
pub mod Always
pub mod Ends
pub mod Given
pub mod Parts
pub mod Commands
pub mod Refusals
use hacker_os_builder.Prelude.{
  ℕ, Bool, true, false, Option, none, some, List, [], ◌∷◌, ◌++◌, if◌then◌else◌, Bytes,
}
use hacker_os_builder.Hkgen.{DebOstreeConfigParams}

-- An entry of a tar archive, as its header tells it.
pub data EntryType : Type 0 where
  type_dir type_reg type_symlink type_link type_other : EntryType

pub record TarEntry : Type 0 where
  pub name : Bytes
  pub entry_type : EntryType
  pub mode : ℕ
  pub linkname : Bytes

-- The calls that only succeed or fail. A path stands for the file that is open under it.
pub data Action : Type 0 where
  -- os.MkdirAll, os.Remove and os.RemoveAll
  make_dirs : Bytes → ℕ → Action
  remove remove_all : Bytes → Action
  -- os.WriteFile, os.OpenFile with O_CREATE and O_TRUNC, writes to it, Close and Chmod
  write_file : Bytes → Bytes → ℕ → Action
  create_file : Bytes → ℕ → Action
  write_text : Bytes → Bytes → Action
  close_file : Bytes → Action
  chmod : Bytes → ℕ → Action
  -- os.Open, and io.Copy to the first from the second
  open_file : Bytes → Action
  copy_data : Bytes → Bytes → Action
  -- os.Symlink and os.Link, in their order of arguments, and os.Rename
  symlink link rename : Bytes → Bytes → Action
  -- os.Stat and exec.LookPath
  stat look_path : Bytes → Action
  set_env : Bytes → Bytes → Action
  -- os.OpenFile with O_CREATE and O_RDWR, flock with LOCK_EX and LOCK_NB, flock with LOCK_UN
  open_lock lock_file unlock_file : Bytes → Action
  truncate_file : Bytes → Action
  -- a command: its directory, the environment added, its input, its name and arguments
  exec : Bytes → List Bytes → Option Bytes → Bytes → List Bytes → Action
  -- DownloadDebOstree: a version and a path
  download : Bytes → Bytes → Action
  -- name.ParseReference, and remote.Image and remote.Write of a reference, with the token and
  -- whether the certificate is left unchecked
  parse_reference : Bytes → Action
  fetch_image push_image : Bytes → Bytes → Bool → Action
  -- an image of one layer, from the file of the layer
  make_image : Bytes → Action
  -- a header of a tar archive that is written to a file
  write_header : Bytes → TarEntry → Action
  -- WriteDebOstreeConfig
  write_deb_ostree_config : Bytes → DebOstreeConfigParams → Action

-- An entry of os.ReadDir: `mode` is `none` where its Info fails.
pub record DirEntry : Type 0 where
  pub name : Bytes
  pub is_dir : Bool
  pub mode : Option ℕ

pub data DirReply : Type 0 where
  no_dir dir_error : DirReply
  dir_entries : List DirEntry → DirReply

-- What filepath.Walk finds at a path: `other` is a device or a pipe.
pub data Kind : Type 0 where
  dir_kind file_kind link_kind other_kind socket_kind : Kind

-- A call of filepath.Walk's function: `rel` is the path from the root, `[]` the root itself.
pub record Visit : Type 0 where
  pub failed : Bool
  pub rel : Bytes
  pub kind : Kind
  pub mode : ℕ

-- What a tar reader yields: its entries with their contents, and whether it ends without an error.
pub record Archive : Type 0 where
  pub entries : List (TarEntry × Bytes)
  pub complete : Bool

pub data Call : Type 0 where
  act : Action → Call
  read_dir : Bytes → Call
  read_file read_link : Bytes → Call
  -- filepath.Glob: a directory and a pattern
  glob : Bytes → Bytes → Call
  get_env : Bytes → Call
  walk : Bytes → Call
  -- a GET of an address, `none` unless it is answered with 200
  fetch : Bytes → Call
  -- the layers of the image that was fetched; one is `none` where it cannot be read
  read_layers : Bytes → Call

abbrev pub Answer : Call → Type 0
Answer (act a) = Bool
Answer (read_dir dir) = DirReply
Answer (read_file path) = Option Bytes
Answer (read_link path) = Option Bytes
Answer (glob dir pattern) = Option (List Bytes)
Answer (get_env name) = Bytes
Answer (walk root) = List Visit
Answer (fetch url) = Option Bytes
Answer (read_layers reference) = Option (List (Option Archive))

-- The texts that wrap an error, the outermost first, without their arguments. `[]` is the error of
-- the system itself.
abbrev pub Failure : Type 0
Failure = List Bytes

pub data Io (V : Type 0) : Type 0 where
  pure : V → Io V
  throw : Failure → Io V
  ask : (c : Call) → (Answer c → Io V) → Io V

infixl 5 ◌>>=◌
unfoldable pub ◌>>=◌ : {V W : Type 0} → Io V → (V → Io W) → Io W
pure v >>= f = f v
throw e >>= f = throw e
ask c k >>= f = ask c (λ a. k a >>= f)

abbrev pub answered : Bool → Io (Unit {0})
answered true = pure tt
answered false = throw []

abbrev pub perform : Action → Io (Unit {0})
perform a = ask (act a) answered

-- A call whose error is ignored.
abbrev pub try_call : Action → Io (Unit {0})
try_call a = ask (act a) λ ok. pure tt

-- `if test { … }`
unfoldable pub when : Bool → Io (Unit {0}) → Io (Unit {0})
when true m = m
when false m = pure tt

-- `fmt.Errorf("context: %w", err)`
unfoldable pub within : {V : Type 0} → Bytes → Io V → Io V
within context (pure v) = pure v
within context (throw e) = throw (context ∷ e)
within context (ask c k) = ask c λ a. within context (k a)

-- `defer`: the call is made however the body ends.
unfoldable pub deferring : {V : Type 0} → Action → Io V → Io V
deferring a (pure v) = ask (act a) λ ok. pure v
deferring a (throw e) = ask (act a) λ ok. throw e
deferring a (ask c k) = ask c λ answer. deferring a (k answer)

-- An error that is only warned of.
unfoldable pub ignoring : Io (Unit {0}) → Io (Unit {0})
ignoring (pure v) = pure tt
ignoring (throw e) = pure tt
ignoring (ask c k) = ask c λ a. ignoring (k a)

-- A loop over a list that stops at the first error.
unfoldable pub each : {X : Type 0} → (X → Io (Unit {0})) → List X → Io (Unit {0})
each f [] = pure tt
each f (x ∷ xs) = f x >>= λ u. each f xs

-- How an operation ends.
pub data Ended (V : Type 0) : Type 0 where
  done : V → Ended V
  failed : Failure → Ended V

-- The calls that are made of a system that answers as `o` says, and the end.
unfoldable pub run : {V : Type 0} → ((c : Call) → Answer c) → Io V → List Call × Ended V
run o (pure v) = ([], done v)
run o (throw e) = ([], failed e)
run o (ask c k) = let (calls, end) = run o (k (o c)) in (c ∷ calls, end)
