-- ===== src/Gestation/Memory/Codec.antt =====
-- An encoding of records that can be decoded, in the place of JSON: each text follows its length.
use kyvernetria.Text.{Text}
use kyvernetria.Gestation.Memory.{Record, Json}
use kyvernetria.Prelude.{ℕ, zero, suc, ◌≡◌, refl, ap, List, [], ◌∷◌, ◌++◌, length, take, drop, some}

abbrev pub write_text : Text → Text → Text
write_text s rest = length s ∷ s ++ rest

abbrev pub read_text : Text → Text × Text
read_text [] = ([], [])
read_text (n ∷ t) = (take n t, drop n t)

abbrev pub write_all : List Text → Text → Text
write_all [] rest = rest
write_all (s ∷ ss) rest = write_text s (write_all ss rest)

abbrev pub write_list : List Text → Text → Text
write_list ss rest = length ss ∷ write_all ss rest

abbrev pub read_all : ℕ → Text → List Text × Text
read_all zero t = ([], t)
read_all (suc n) t = let (s, u) = read_text t in let (ss, v) = read_all n u in (s ∷ ss, v)

abbrev pub read_list : Text → List Text × Text
read_list [] = ([], [])
read_list (n ∷ t) = read_all n t

take-length : (s rest : Text) → take (length s) (s ++ rest) ≡ s
take-length [] rest = refl
take-length (c ∷ s) rest = ap (◌∷◌ c) (take-length s rest)

drop-length : (s rest : Text) → drop (length s) (s ++ rest) ≡ rest
drop-length [] rest = refl
drop-length (c ∷ s) rest = drop-length s rest

pub read_all-write_all :
    (ss : List Text) (rest : Text) → read_all (length ss) (write_all ss rest) ≡ (ss, rest)
read_all-write_all [] rest = refl
read_all-write_all (s ∷ ss) rest =
    rw
      (
        take-length s (write_all ss rest),
        drop-length s (write_all ss rest),
        read_all-write_all ss rest,
      )
      refl

abbrev pub lengths : Json
lengths = record {
  marshal = λ r. write_text r.scope (
      write_text r.name (
        write_text r.uid (
          write_text r.born (
            write_text r.left
              (write_text r.config_digest (write_list r.owners (write_list r.dependencies [])))))));
  unmarshal = λ t.
      let (scope, t1) = read_text t in
      let (name, t2) = read_text t1 in
      let (uid, t3) = read_text t2 in
      let (born, t4) = read_text t3 in
      let (left, t5) = read_text t4 in
      let (digest, t6) = read_text t5 in
      let (owners, t7) = read_list t6 in
      let (dependencies, t8) = read_list t7 in
      some (record {
        scope = scope;
        name = name;
        uid = uid;
        born = born;
        left = left;
        owners = owners;
        dependencies = dependencies;
        config_digest = digest;
      });
}

pub lengths_law : (r : Record) → lengths.unmarshal (lengths.marshal r) ≡ some r
lengths_law r = simp (take-length, drop-length, read_all-write_all) refl
