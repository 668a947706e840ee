-- ===== src/Store/Auth/Register.antt =====
-- What Register leaves when it succeeds and when it fails.
use libvirt_operator.Prelude.{
  ℕ, String, List, [], ◌∷◌, ◌++◌, Option, none, some, ◌≡◌, ◌≢◌, refl, arith, ◌∙◌, lookup-insert,
  if◌then◌else◌, str_eq,
}
use mathlib.Core.List.{append-nil}
use Prim.Native.String.{◌++◌ as str_append}
use libvirt_operator.Outcome.{Outcome, Error, ok, err, panic, hang}
use libvirt_operator.Host.Monad.{World, M, lift, pure, bind_cases, ◌>>=◌, ◌>>◌}
use libvirt_operator.Store.Auth.{
  File, AuthEntry, AuthStore, FileOp, mkdir_temp, write_file, symlink, rename, remove, remove_all,
  Files, AuthState, lookup_auth, perform, read, write_files, retire, replace, link, enter, fill,
  register_files, register,
}

-- What a log takes away.
abbrev pub removals : List FileOp → List FileOp
removals [] = []
removals (mkdir_temp d ∷ ops) = removals ops
removals (write_file p d ∷ ops) = removals ops
removals (symlink t l ∷ ops) = removals ops
removals (rename a b ∷ ops) = removals ops
removals (remove p ∷ ops) = remove p ∷ removals ops
removals (remove_all p ∷ ops) = remove_all p ∷ removals ops

removals-append : (xs ys : List FileOp) → removals (xs ++ ys) ≡ removals xs ++ removals ys
removals-append [] ys = refl
removals-append (mkdir_temp d ∷ xs) ys = removals-append xs ys
removals-append (write_file p d ∷ xs) ys = removals-append xs ys
removals-append (symlink t l ∷ xs) ys = removals-append xs ys
removals-append (rename a b ∷ xs) ys = removals-append xs ys
removals-append (remove p ∷ xs) ys = cc (removals-append xs ys)
removals-append (remove_all p ∷ xs) ys = cc (removals-append xs ys)

-- No entry is changed and nothing is removed.
abbrev pub Kept : {F O : Type 0} → World (AuthState F) O → World (AuthState F) O → Type 0
Kept w w' = (w'.host.auths ≡ w.host.auths) × (removals w'.host.ops ≡ removals w.host.ops)

-- If the run ends with an error, then nothing is lost.
abbrev pub FailsKept :
    {F O A : Type 0} → World (AuthState F) O → Outcome A × World (AuthState F) O → Type 0
FailsKept w (r, w') = (e : Error) → r ≡ err e → Kept w w'

module _ {F O A B : Type 0} (m : M (AuthState F) O A) (k : A → M (AuthState F) O B)
    (w : World (AuthState F) O) where
  Kept-then :
      Kept w (m w).1
      → ((a : A) → (m w).0 ≡ ok a → FailsKept (m w).1 (k a (m w).1))
      → FailsKept w ((m >>= k) w)
  Kept-then first rest =
      bind_cases (FailsKept w) m k w (λ stop no _ _. first)
        (λ a given e failed.
          let kept = rest a given e failed in (kept.0 ∙ first.0, kept.1 ∙ first.1))

  Kept-bind : Kept w (m w).1 → ((a : A) → Kept (m w).1 (k a (m w).1).1) → Kept w ((m >>= k) w).1
  Kept-bind first rest =
      bind_cases (λ p. Kept w p.1) m k w (λ stop no. first)
        (λ a _. let kept = rest a in (kept.0 ∙ first.0, kept.1 ∙ first.1))

module _ {F O : Type 0} where
  perform-Kept :
      {A : Type 0} (op : FileOp) (f : F → Outcome A × F) (w : World (AuthState F) O)
      → removals (op ∷ []) ≡ []
      → Kept w (perform op f w).1
  perform-Kept op f w none_of = (
    refl,
    removals-append w.host.ops (op ∷ [])
        ∙ ground (arith, none_of, append-nil (removals w.host.ops)),
  )

module _ {F O : Type 0} (fs : Files F) where
  write_files-Kept :
      (dir : String) (files : List File) (w : World (AuthState F) O)
      → Kept w (write_files fs dir files w).1
  unfolding write_files
  write_files-Kept dir [] w = (refl, refl)
  write_files-Kept dir (f ∷ files) w =
      let path = fs.join dir f.name in
      let op : M (AuthState F) O (Unit {0}) =
        perform (write_file path f.data_) (fs.create_file path f.data_) in
      Kept-bind op (λ _. write_files fs dir files) w
        (perform-Kept (write_file path f.data_) (fs.create_file path f.data_) w refl)
        (λ _. write_files-Kept dir files (op w).1)

-- A run that is followed by one which gives no error.
kept_last :
    {F O A B : Type 0} (r : Outcome A) (k : A → M (AuthState F) O B) (w w' : World (AuthState F) O)
    → FailsKept w (r, w')
    → ((a : A) (e : Error) → (k a w').0 ≢ err e)
    → FailsKept w ((lift r >>= k) w')
kept_last (ok a) k w w' kept no_error e h = absurd (no_error a e h)
kept_last (err e') k w w' kept no_error e h = kept e' refl
kept_last panic k w w' kept no_error e h = cc
kept_last hang k w w' kept no_error e h = cc

-- The entry of the auth has the generation and, if it had an entry before, the same path; the other
-- entries are as they were.
abbrev pub Entered : String → ℕ → AuthStore → AuthStore → Type 0
Entered uid generation auths auths' =
    (path : String) × ((other : String)
      → lookup_auth other auths' ≡ (
          if str_eq uid other
          then some (record { path = path; generation = generation })
          else lookup_auth other auths))
    × ((old : AuthEntry) → lookup_auth uid auths ≡ some old → path ≡ old.path)

abbrev WhenOk :
    {F O : Type 0} → String → ℕ → AuthStore → Outcome (Unit {0}) × World (AuthState F) O → Type 0
WhenOk uid generation auths (r, w') = r ≡ ok tt → Entered uid generation auths w'.host.auths

module _ {F O : Type 0} (fs : Files F) where
  retire_no_error :
      (path old_dir : String) (w : World (AuthState F) O) (e : Error)
      → (retire fs path old_dir w).0 ≢ err e
  unfolding retire
  retire_no_error path old_dir w e h = ground arith

  replace_kept :
      (dir path old_dir : String) (w : World (AuthState F) O)
      → FailsKept w (replace fs dir path old_dir w)
  unfolding replace
  replace_kept dir path old_dir w =
      let tmp_path = str_append path ".tmp" in
      let make : M (AuthState F) O (Unit {0}) =
        perform (symlink dir tmp_path) (fs.symlink dir tmp_path) in
      let move : M (AuthState F) O (Unit {0}) =
        perform (rename tmp_path path) (fs.rename tmp_path path) in
      Kept-then make (λ _. move >> retire fs path old_dir) w
        (perform-Kept (symlink dir tmp_path) (fs.symlink dir tmp_path) w refl)
        (λ _ _.
          Kept-then move (λ _. retire fs path old_dir) (make w).1
            (perform-Kept (rename tmp_path path) (fs.rename tmp_path path) (make w).1 refl)
            (λ _ _ e h. absurd (retire_no_error path old_dir (move (make w).1).1 e h)))

  link_kept :
      (uid dir : String) (found : Option AuthEntry) (w : World (AuthState F) O)
      → FailsKept w (link fs uid dir found w)
  unfolding link
  link_kept uid dir none w =
      let path = fs.join fs.tmp_dir uid in
      let make : M (AuthState F) O (Unit {0}) = perform (symlink dir path) (fs.symlink dir path) in
      Kept-then make (λ _. pure path) w
        (perform-Kept (symlink dir path) (fs.symlink dir path) w refl) (λ _ _ e h. cc)
  link_kept uid dir (some old) w =
      Kept-then (read (fs.eval_symlinks old.path)) (replace fs dir old.path) w (refl, refl)
        (λ old_dir _. replace_kept dir old.path old_dir w)

  fill_kept :
      (uid : String) (generation : ℕ) (files : List File) (found : Option AuthEntry) (dir : String)
      (w : World (AuthState F) O)
      → FailsKept w (fill fs uid generation files found dir w)
  unfolding fill
  fill_kept uid generation files found dir w =
      Kept-then (write_files fs dir files) (λ _. link fs uid dir found >>= enter fs uid generation)
        w (write_files-Kept fs dir files w)
        (λ _ _.
          let w' = (write_files fs dir files w).1 in
          kept_last (link fs uid dir found w').0 (enter fs uid generation) w'
            (link fs uid dir found w').1 (link_kept uid dir found w') (λ a e h. cc))

  -- A Register that returns an error leaves all entries as they were, and has removed nothing.
  pub register_failed :
      (uid : String) (generation : ℕ) (files : List File) (w : World (AuthState F) O) (e : Error)
      → (register fs uid generation files w).0 ≡ err e
      → Kept w (register fs uid generation files w).1
  unfolding register register_files
  register_failed uid generation files w =
      Kept-then (perform (mkdir_temp (str_append uid ".")) (fs.mkdir_temp (str_append uid ".")))
        (fill fs uid generation files (lookup_auth uid w.host.auths)) w
        (perform-Kept (mkdir_temp (str_append uid ".")) (fs.mkdir_temp (str_append uid ".")) w refl)
        (λ dir _. fill_kept uid generation files (lookup_auth uid w.host.auths) dir _)

  link_path :
      (uid dir : String) (found : Option AuthEntry) (w : World (AuthState F) O) (path : String)
      → (link fs uid dir found w).0 ≡ ok path
      → ((link fs uid dir found w).1.host.auths ≡ w.host.auths)
        × ((old : AuthEntry) → found ≡ some old → path ≡ old.path)
  unfolding link replace retire
  link_path uid dir none w path h = (ground arith, λ old e. cc)
  link_path uid dir (some old) w path h = (ground arith, λ old' e. ground arith)

  fill_Entered :
      (uid : String) (generation : ℕ) (files : List File) (dir : String) (auths : AuthStore)
      (w : World (AuthState F) O)
      → w.host.auths ≡ auths
      → WhenOk uid generation auths (fill fs uid generation files (lookup_auth uid auths) dir w)
  unfolding fill lookup_auth
  fill_Entered uid generation files dir auths w same =
      let found = lookup_auth uid auths in
      bind_cases (WhenOk uid generation auths) (write_files fs dir files)
        (λ _. link fs uid dir found >>= enter fs uid generation) w (λ stop no h. absurd (no tt h))
        (λ _ _.
          let w1 = (write_files fs dir files w).1 in
          bind_cases (WhenOk uid generation auths) (link fs uid dir found) (enter fs uid generation)
            w1 (λ stop no h. absurd (no tt h))
            (λ path e h.
              let (kept, same_path) = link_path uid dir found w1 path e in
              (
                path,
                λ other.
                    rw (kept ∙ (write_files-Kept fs dir files w).0 ∙ same)
                      (lookup-insert uid other _ auths),
                same_path,
              )))

  -- A Register that succeeds enters the auth with its generation, keeps the path of a known auth, and
  -- leaves the other entries as they were.
  pub register-Entered :
      (uid : String) (generation : ℕ) (files : List File) (w : World (AuthState F) O)
      → (register fs uid generation files w).0 ≡ ok tt
      → Entered uid generation w.host.auths (register fs uid generation files w).1.host.auths
  unfolding register register_files
  register-Entered uid generation files w =
      bind_cases (WhenOk uid generation w.host.auths)
        (perform (mkdir_temp (str_append uid ".")) (fs.mkdir_temp (str_append uid ".")))
        (fill fs uid generation files (lookup_auth uid w.host.auths)) w
        (λ stop no h. absurd (no tt h))
        (λ dir _. fill_Entered uid generation files dir w.host.auths _ refl)
