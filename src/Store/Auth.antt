-- ===== src/Store/Auth.antt =====
-- AuthStore of internal/store/auth.go: the credentials of an auth lie in a directory of their own, and
-- a link leads to it. The file system is what the environment gives; the calls that change it are logged.
pub mod Register
use libvirt_operator.Prelude.{
  ℕ, String, Bool, List, [], ◌∷◌, ◌++◌, Option, none, some, lookup, insert, erase,
}
use Prim.Native.String.{◌++◌ as str_append}
use libvirt_operator.Outcome.{Outcome, ok}
use libvirt_operator.Host.Monad.{M, Attempt, success, failure, pure, attempt, ◌>>=◌, ◌>>◌}

-- The content of a file: bytes of a secret, or a text.
pub data Content : Type 0 where
  bytes : List ℕ → Content
  text : String → Content

pub record File : Type 0 where
  pub name : String
  pub data_ : Content

pub record AuthEntry : Type 0 where
  pub path : String
  pub generation : ℕ

abbrev pub AuthStore : Type 0
AuthStore = List (String × AuthEntry)

unfoldable pub new_auth_store : AuthStore
new_auth_store = []

-- A call that changes the file system, with its arguments.
pub data FileOp : Type 0 where
  mkdir_temp : String → FileOp
  write_file : String → Content → FileOp
  symlink : String → String → FileOp
  rename : String → String → FileOp
  remove : String → FileOp
  remove_all : String → FileOp

-- The functions of os and filepath, on a state of the file system. `create_file` is os.Create and
-- Write; the error of Close is only logged, so it is left out.
pub record Files (F : Type 0) : Type 0 where
  pub tmp_dir : String
  pub join : String → String → String
  pub mkdir_temp : String → F → Outcome String × F
  pub create_file : String → Content → F → Outcome (Unit {0}) × F
  pub symlink : String → String → F → Outcome (Unit {0}) × F
  pub eval_symlinks : String → F → Outcome String
  pub rename : String → String → F → Outcome (Unit {0}) × F
  pub remove : String → F → Outcome (Unit {0}) × F
  pub remove_all : String → F → Outcome (Unit {0}) × F

-- What the operator keeps of the auths, with the file system and what was done to it, oldest first.
pub record AuthState (F : Type 0) : Type 0 where
  pub auths : AuthStore
  pub files : F
  pub ops : List FileOp

unfoldable pub lookup_auth : String → AuthStore → Option AuthEntry
lookup_auth uid s = lookup uid s

module _ {F O : Type 0} where
  abbrev pub perform : {A : Type 0} → FileOp → (F → Outcome A × F) → M (AuthState F) O A
  perform op f w =
      let s = w.host in
      let (r, files) = f s.files in
      (r, record w { host = record s { files = files; ops = s.ops ++ op ∷ [] } })

  abbrev pub read : {A : Type 0} → (F → Outcome A) → M (AuthState F) O A
  read f w = (f w.host.files, w)

  abbrev pub set_auths : (AuthStore → AuthStore) → M (AuthState F) O (Unit {0})
  set_auths f w = let s = w.host in (ok tt, record w { host = record s { auths = f s.auths } })

-- A call whose error is only logged.
abbrev pub ignored : {S O A : Type 0} → M S O A → M S O (Unit {0})
ignored m = attempt m >> pure tt

-- A link that does not resolve leaves the empty path as the target.
target : Attempt String → String
target (success t) = t
target (failure e) = ""

module _ {F O : Type 0} (fs : Files F) where
  unfoldable pub write_files : String → List File → M (AuthState F) O (Unit {0})
  write_files dir [] = pure tt
  write_files dir (f ∷ rest) =
      let path = fs.join dir f.name in
      perform (write_file path f.data_) (fs.create_file path f.data_) >> write_files dir rest

  -- The old directory is removed when the new one is in its place.
  unfoldable pub retire : String → String → M (AuthState F) O String
  retire path old_dir = ignored (perform (remove_all old_dir) (fs.remove_all old_dir)) >> pure path

  unfoldable pub replace : String → String → String → M (AuthState F) O String
  replace dir path old_dir =
      let tmp_path = str_append path ".tmp" in
      perform (symlink dir tmp_path) (fs.symlink dir tmp_path)
      >> (perform (rename tmp_path path) (fs.rename tmp_path path) >> retire path old_dir)

  -- A first registration makes the link; a later one makes a second link and renames it over the
  -- first.
  unfoldable pub link : String → String → Option AuthEntry → M (AuthState F) O String
  link uid dir none =
      let path = fs.join fs.tmp_dir uid in
      perform (symlink dir path) (fs.symlink dir path) >> pure path
  link uid dir (some old) = read (fs.eval_symlinks old.path) >>= replace dir old.path

  abbrev pub enter : String → ℕ → String → M (AuthState F) O (Unit {0})
  enter uid generation path =
      set_auths (insert uid (record { path = path; generation = generation }))

  unfoldable pub fill :
      String → ℕ → List File → Option AuthEntry → String → M (AuthState F) O (Unit {0})
  fill uid generation files found dir =
      write_files dir files >> (link uid dir found >>= enter uid generation)

  unfoldable pub register_files :
      String → ℕ → List File → Option AuthEntry → M (AuthState F) O (Unit {0})
  register_files uid generation files found =
      perform (mkdir_temp (str_append uid ".")) (fs.mkdir_temp (str_append uid "."))
      >>= fill uid generation files found

  unfoldable pub register : String → ℕ → List File → M (AuthState F) O (Unit {0})
  register uid generation files w =
      register_files uid generation files (lookup_auth uid w.host.auths) w

  drop_entry : String → Option AuthEntry → M (AuthState F) O (Unit {0})
  drop_entry uid none = pure tt
  drop_entry uid (some entry) = do
    found ← attempt (read (fs.eval_symlinks entry.path))
    set_auths (erase uid)
    ignored (perform (remove entry.path) (fs.remove entry.path))
    ignored (perform (remove_all (target found)) (fs.remove_all (target found)))

  unfoldable pub deregister : String → M (AuthState F) O (Unit {0})
  unfolding drop_entry target
  deregister uid w = drop_entry uid (lookup_auth uid w.host.auths) w
