-- ===== src/Agent/Mailbox/Reading.antt =====
-- What GetNew returns, against ListNew.
use mathlib.Core.List.{append_assoc, append-nil, Permᴰ}
use mathlib.Core.List.Permᴰ
use mathlib.Core.Path.{ap₂}
use ma_sinafadavi_iran.Prelude.{
  String, ◌++◌, ◌≡◌, refl, sym, ap, Bool, subst, true, false, Option, none, some, List, [], ◌∷◌,
  map,
}
use ma_sinafadavi_iran.Bpv7.Bundle.{Bundle}
use ma_sinafadavi_iran.Bpv7.BundleId.{BundleId}
use ma_sinafadavi_iran.Store.Descriptor.{Result}
use ma_sinafadavi_iran.Store.Bundles.{BundleStore}
use ma_sinafadavi_iran.Agent.Mailbox.{
  Messages, AgentError, Read, Fetched, fetched, unknown, unloadable, fetch, list_all, list_new,
  read_one, read_loop, cleared, get_new, get_all,
}

map_fetched-append :
    (bs : List Bundle) (b : Bundle)
    → map (λ (x : Bundle). fetched x) (bs ++ b ∷ [])
      ≡ map (λ (x : Bundle). fetched x) bs ++ fetched b ∷ []
map_fetched-append [] b = refl
map_fetched-append (x ∷ bs) b = rw (map_fetched-append bs b)

-- What an error-free reading of the new messages has done.
record IsReadOut (fetching : BundleId → Fetched) (bndls : List Bundle) (box : Messages) (r : Read)
    : Type 0 where
  nothing_new : list_new r.messages ≡ []
  same_ids : list_all r.messages ≡ list_all box
  exact :
      map (λ (x : Bundle). fetched x) r.bundles
      ≡ map (λ (x : Bundle). fetched x) bndls ++ map fetching (list_new box)

read_one-IsReadOut :
    (fetching : BundleId → Fetched) (id : BundleId) (m : Messages) (bndls : List Bundle)
    (f : Fetched) (rest : Bundle → Read)
    → fetching id ≡ f
    → ((b : Bundle) → (rest b).error ≡ none → IsReadOut fetching (bndls ++ b ∷ []) m (rest b))
    → (read_one id false m bndls f rest).error ≡ none
    → IsReadOut fetching bndls ((id, false) ∷ m) (read_one id false m bndls f rest)
unfolding read_one list_new list_all
read_one-IsReadOut fetching id m bndls (unknown e) rest same later fine = cc
read_one-IsReadOut fetching id m bndls (unloadable e) rest same later fine = cc
read_one-IsReadOut fetching id m bndls (fetched b) rest same later fine =
    let v = later b fine in
    record {
      nothing_new = v.nothing_new;
      same_ids = rw v.same_ids;
      exact =
          rw (v.exact, map_fetched-append bndls b, same)
            (append_assoc (map (λ (x : Bundle). fetched x) bndls) (fetched b ∷ [])
              (map fetching (list_new m)));
    }

read_loop-IsReadOut :
    (bst : BundleStore) (disk : String → Result Bundle) (bndls : List Bundle) (box : Messages)
    → (read_loop true bst disk bndls box).error ≡ none
    → IsReadOut (fetch bst disk) bndls box (read_loop true bst disk bndls box)
unfolding read_loop list_new list_all
read_loop-IsReadOut bst disk bndls [] fine = record {
  nothing_new = refl;
  same_ids = refl;
  exact = sym (append-nil _);
}
read_loop-IsReadOut bst disk bndls ((id, true) ∷ m) fine =
    let v = read_loop-IsReadOut bst disk bndls m fine in
    record { nothing_new = v.nothing_new; same_ids = rw v.same_ids; exact = v.exact }
read_loop-IsReadOut bst disk bndls ((id, false) ∷ m) fine =
    read_one-IsReadOut (fetch bst disk) id m bndls (fetch bst disk id) _ refl
      (λ b. read_loop-IsReadOut bst disk (bndls ++ b ∷ []) m) fine

cleared-false : (r : Read) (e : Option AgentError) → cleared false r e ≡ r
unfolding cleared
cleared-false r none = refl
cleared-false r (some e) = refl

-- GetNew and ListNew on one order of the map.
get_new-list_new_visited :
    (bst : BundleStore) (disk : String → Result Bundle) (box : Messages)
    → (get_new bst disk box false).error ≡ none
    → (map (λ (b : Bundle). fetched b) (get_new bst disk box false).bundles
        ≡ map (fetch bst disk) (list_new box))
      × (list_new (get_new bst disk box false).messages ≡ [])
      × (list_all (get_new bst disk box false).messages ≡ list_all box)
unfolding get_new
get_new-list_new_visited bst disk box fine =
    let r = read_loop true bst disk [] box in
    let same : get_new bst disk box false ≡ r = cleared-false r r.error in
    let v = read_loop-IsReadOut bst disk [] box (subst (λ (x : Read). x.error ≡ none) same fine) in
    rw same (v.exact, v.nothing_new, v.same_ids)

map-permᴰ : {A B : Type 0} (f : A → B) {xs ys : List A} → Permᴰ xs ys → Permᴰ (map f xs) (map f ys)
map-permᴰ f Permᴰ.nil = Permᴰ.nil
map-permᴰ f (Permᴰ.cons e p) = Permᴰ.cons (ap f e) (map-permᴰ f p)
map-permᴰ f (Permᴰ.swap d e) = Permᴰ.swap (ap f d) (ap f e)
map-permᴰ f (Permᴰ.trans p q) = Permᴰ.trans (map-permᴰ f p) (map-permᴰ f q)

list_new-cons :
    (x : BundleId × Bool) (m n : Messages)
    → Permᴰ (list_new m) (list_new n)
    → Permᴰ (list_new (x ∷ m)) (list_new (x ∷ n))
unfolding list_new
list_new-cons (id, true) m n p = p
list_new-cons (id, false) m n p = Permᴰ.cons refl p

list_new-swap :
    (x y : BundleId × Bool) (m : Messages) → Permᴰ (list_new (x ∷ y ∷ m)) (list_new (y ∷ x ∷ m))
unfolding list_new
list_new-swap (i, true) y m = Permᴰ.refl _
list_new-swap (i, false) (j, true) m = Permᴰ.refl _
list_new-swap (i, false) (j, false) m = Permᴰ.swap refl refl

list_new-permᴰ : {m n : Messages} → Permᴰ m n → Permᴰ (list_new m) (list_new n)
unfolding list_new
list_new-permᴰ Permᴰ.nil = Permᴰ.nil
list_new-permᴰ (Permᴰ.cons {a = a} {l₁ = l} {l₂ = k} e p) =
    subst (λ x. Permᴰ (list_new (a ∷ l)) (list_new (x ∷ k))) e
      (list_new-cons a l k (list_new-permᴰ p))
list_new-permᴰ (Permᴰ.swap {a = a} {b = b} {l = l} d e) =
    subst (λ (x : Messages). Permᴰ (list_new (a ∷ b ∷ l)) (list_new x)) (ap₂ (λ x y. x ∷ y ∷ l) e d)
      (list_new-swap a b l)
list_new-permᴰ (Permᴰ.trans p q) = Permᴰ.trans (list_new-permᴰ p) (list_new-permᴰ q)

list_all-map : (m : Messages) → list_all m ≡ map (λ (x : BundleId × Bool). x.0) m
unfolding list_all
list_all-map [] = refl
list_all-map ((id, retrieved) ∷ m) = ap (◌∷◌ id) (list_all-map m)

list_all-permᴰ : {m n : Messages} → Permᴰ m n → Permᴰ (list_all m) (list_all n)
list_all-permᴰ {m} {n} p =
    rw (list_all-map m, list_all-map n) (map-permᴰ (λ (x : BundleId × Bool). x.0) p)

-- GetNew(false) and ListNew may visit the mailbox in different orders. Where GetNew returns no error, its
-- bundles are, up to the order, those that loading the ids of ListNew gives; afterwards ListNew is empty, and
-- List has the ids that it had.
pub get_new-list_new :
    (bst : BundleStore) (disk : String → Result Bundle) (box visited : Messages)
    → Permᴰ visited box
    → (get_new bst disk visited false).error ≡ none
    → Permᴰ
        (map (λ (b : Bundle). fetched b) (get_new bst disk visited false).bundles)
        (map (fetch bst disk) (list_new box))
      × (list_new (get_new bst disk visited false).messages ≡ [])
      × Permᴰ (list_all (get_new bst disk visited false).messages) (list_all box)
get_new-list_new bst disk box visited p fine =
    let (loads, empty, same) = get_new-list_new_visited bst disk visited fine in
    (rw loads (map-permᴰ (fetch bst disk) (list_new-permᴰ p)), empty, rw same (list_all-permᴰ p))

pub get_all-single :
    (bst : BundleStore) (disk : String → Result Bundle) (id : BundleId) (b : Bundle)
    → fetch bst disk id ≡ fetched b
    → get_all bst disk ((id, false) ∷ []) true
      ≡ record { messages = []; bundles = b ∷ []; error = none }
unfolding get_all read_loop read_one cleared
get_all-single bst disk id b loads = rw loads refl
