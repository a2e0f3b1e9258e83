-- ===== src/Placement/Atomic.antt =====
-- sync against an abstract view of it: the writes of others, and one indivisible update at most.
use kyvernetria.Text.{Text, text_eq, text_eq_iff}
use kyvernetria.Placement.Sync.{
  Live, Server, Answer, accepted, conflict, rejected, patch, Around, write, got, gone, unread, get,
  got_of, End, unchanged, saved, deleted, refused, unreadable, kept_changing, attempts, answered,
}
use kyvernetria.Prelude.{
  ℕ, zero, suc, ◌+◌, ◌≡◌, ◌≢◌, refl, sym, ap, subst, ◌∙◌, inl, inr, true, false, none, some, ◌==◌,
  ==_iff, Bool-cases,
}

-- An update reads the annotation and writes what it recalls in one step.
pub data Atomic (recalled : Text → Text) (around : ℕ → Around)
    : Server → Server × End → Type 0 where
  before_patch :
      (k : ℕ) (s : Server) (r : Server × End)
      → Atomic recalled around ((around k).before_patch s) r
      → Atomic recalled around s r
  before_get :
      (k : ℕ) (s : Server) (r : Server × End)
      → Atomic recalled around ((around k).before_get s) r
      → Atomic recalled around s r
  update :
      (o : Live)
      → recalled o.annotation ≢ o.annotation
      → Atomic recalled around
          (some o)
          (some (record { version = o.version + 1; annotation = recalled o.annotation }), saved)
  stop : (s : Server) (e : End) → e ≢ saved → Atomic recalled around s (s, e)

-- A resourceVersion tells the annotation.
abbrev pub Tells : (ℕ → Text) → Server → Type 0
Tells content none = Unit
Tells content (some o) = o.annotation ≡ content o.version

abbrev pub Keeps : (ℕ → Text) → (Server → Server) → Type 0
Keeps content f = (s : Server) → Tells content s → Tells content (f s)

pub patch-same :
    (v : ℕ) (w : Text) (o : Live)
    → (o.version == v) ≡ true
    → patch v w (some o) ≡ (some (record { version = o.version + 1; annotation = w }), accepted)
unfolding patch
patch-same v w o h = rw (h, patch) refl

patch-other :
    (v : ℕ) (w : Text) (o : Live)
    → (o.version == v) ≡ false
    → patch v w (some o) ≡ (some o, conflict)
unfolding patch
patch-other v w o h = rw (h, patch) refl

write-fails :
    (a : Around) (v : ℕ) (w : Text) (s : Server)
    → a.patch_fails ≡ true
    → write a v w s ≡ (a.before_patch s, rejected)
unfolding write
write-fails a v w s h = rw (h, write) refl

pub write-sent :
    (a : Around) (v : ℕ) (w : Text) (s : Server)
    → a.patch_fails ≡ false
    → write a v w s ≡ patch v w (a.before_patch s)
unfolding write
write-sent a v w s h = rw (h, write) refl

module _ (content : ℕ → Text) (recalled : Text → Text) (around : ℕ → Around)
    (patches : (k : ℕ) → Keeps content (around k).before_patch)
    (gets : (k : ℕ) → Keeps content (around k).before_get) where
  -- After a conflict the attempts go on from the copy that is read.
  resumed-Atomic :
      (n : ℕ) (t : Server)
      → Tells content t
      → ((c : Live) (u : Server)
          → c.annotation ≡ content c.version
          → Tells content u
          → Atomic recalled around u (attempts recalled n around c u))
      → Atomic recalled around t (elim (got_of t) [
        | gone ↦ (t, deleted)
        | unread ↦ (t, unreadable)
        | got o ↦ attempts recalled n around o t
      ])
  resumed-Atomic n none h again = stop none deleted (λ e. cc)
  resumed-Atomic n (some o) h again = again o (some o) h h

  read_again-Atomic :
      (n : ℕ) (s : Server)
      → Tells content s
      → ((c : Live) (t : Server)
          → c.annotation ≡ content c.version
          → Tells content t
          → Atomic recalled around t (attempts recalled n around c t))
      → Atomic recalled around s
          (answered recalled (around n) (attempts recalled n around) (s, conflict))
  unfolding get
  read_again-Atomic n s h again = elim (Bool-cases (around n).get_fails) [
    | inl fails ↦ rw fails (
        before_get n s ((around n).before_get s, unreadable)
          (stop ((around n).before_get s) unreadable (λ e. cc)))
    | inr reads ↦
        rw reads (before_get n s _ (resumed-Atomic n ((around n).before_get s) (gets n s h) again))
  ]

  patched-Atomic :
      (n : ℕ) (c : Live) (s : Server)
      → c.annotation ≡ content c.version
      → Tells content s
      → recalled c.annotation ≢ c.annotation
      → ((d : Live) (t : Server)
          → d.annotation ≡ content d.version
          → Tells content t
          → Atomic recalled around t (attempts recalled n around d t))
      → Atomic recalled around s (
          answered recalled
            (around n)
            (attempts recalled n around)
            (patch c.version (recalled c.annotation) s))
  unfolding patch
  patched-Atomic n c none hc hs new again = stop none refused (λ e. cc)
  patched-Atomic n c (some o) hc hs new again = elim (Bool-cases (o.version == c.version)) [
    | inl same ↦
        let e = hc ∙ ap content (sym ((==_iff o.version c.version).0 same)) ∙ sym hs in
        subst (λ (x : Server × Answer). Atomic recalled around (some o) (after x))
          (sym (patch-same c.version (recalled c.annotation) o same))
          (subst
            (λ (a : Text).
              Atomic recalled around (some o)
                (some (record { version = o.version + 1; annotation = recalled a }), saved))
            (sym e) (update o (λ k. new (subst (λ (a : Text). recalled a ≡ a) (sym e) k))))
    | inr other ↦
        subst (λ (x : Server × Answer). Atomic recalled around (some o) (after x))
          (sym (patch-other c.version (recalled c.annotation) o other))
          (read_again-Atomic n (some o) hs again)
  ]
    where
      after : Server × Answer → Server × End
      after = answered recalled (around n) (attempts recalled n around)

  written-Atomic :
      (n : ℕ) (c : Live) (s : Server)
      → c.annotation ≡ content c.version
      → Tells content s
      → recalled c.annotation ≢ c.annotation
      → ((d : Live) (t : Server)
          → d.annotation ≡ content d.version
          → Tells content t
          → Atomic recalled around t (attempts recalled n around d t))
      → Atomic recalled around s (
          answered recalled
            (around n)
            (attempts recalled n around)
            (write (around n) c.version (recalled c.annotation) s))
  unfolding write
  written-Atomic n c s hc hs new again = elim (Bool-cases (around n).patch_fails) [
    | inl fails ↦
        subst (λ (x : Server × Answer). Atomic recalled around s (after x))
          (sym (write-fails (around n) c.version (recalled c.annotation) s fails))
          (before_patch n s ((around n).before_patch s, refused)
            (stop ((around n).before_patch s) refused (λ e. cc)))
    | inr sent ↦
        subst (λ (x : Server × Answer). Atomic recalled around s (after x))
          (sym (write-sent (around n) c.version (recalled c.annotation) s sent))
          (before_patch n s _
            (patched-Atomic n c ((around n).before_patch s) hc (patches n s hs) new again))
  ]
    where
      after : Server × Answer → Server × End
      after = answered recalled (around n) (attempts recalled n around)

  -- sync is atomic: besides what others write, it updates the live annotation once at most.
  pub attempts-Atomic :
      (n : ℕ) (c : Live) (s : Server)
      → c.annotation ≡ content c.version
      → Tells content s
      → Atomic recalled around s (attempts recalled n around c s)
  unfolding attempts write
  attempts-Atomic zero c s hc hs = stop s kept_changing (λ e. cc)
  attempts-Atomic (suc n) c s hc hs =
      elim (Bool-cases (text_eq (recalled c.annotation) c.annotation)) [
        | inl same ↦ rw (same, attempts) (stop s unchanged (λ e. cc))
        | inr other ↦
            rw (other, attempts)
              (written-Atomic n c s hc hs
                (λ e. cc (other, (text_eq_iff (recalled c.annotation) c.annotation).1 e))
                (attempts-Atomic n))
      ]
