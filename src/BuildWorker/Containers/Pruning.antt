-- ===== src/BuildWorker/Containers/Pruning.antt =====
-- Which images the cleanup job prunes.
use alpha_exchange.Base.{
  ℕ, ◌+◌, ◌-◌, ◌≤◌, ◌<◌, ◌≡◌, refl, sym, ap, subst, leb, true, false, List, [], ◌∷◌, ◌++◌, total,
  sort_stable, total-sort_stable, String, arith, Bool-cases, inl, inr, ◌⊎◌,
}
use alpha_exchange.BuildWorker.Containers.{
  World, Daemon, Image, prune_each, prune_images, older, five_gb, ten_gb,
}

abbrev pub size_of : List Image → ℕ
size_of = total (λ (i : Image). i.size)

pub last_size : List Image → ℕ
last_size [] = 0
last_size (i ∷ []) = i.size
last_size (i ∷ j ∷ is) = last_size (j ∷ is)

-- Of a list, oldest first, a prefix goes and the rest stays: what stays is at most 5 GB, and it
-- would be more with the last image that goes.
pub record Pruned (all kept : List Image) (end : ℕ) : Type 0 where
  pub gone : List Image
  pub split : all ≡ gone ++ kept
  pub counted : end ≡ size_of kept
  pub small : end ≤ five_gb
  pub needed : (gone ≡ []) ⊎ (five_gb < end + last_size gone)

prune_each-under :
    (d : Daemon) (i : Image) (is : List Image) (sum : ℕ)
    → leb sum five_gb ≡ true
    → prune_each d (i ∷ is) sum ≡ (i ∷ is, sum)
unfolding prune_each
prune_each-under d i is sum e = rw (e) refl

prune_each-over :
    (d : Daemon) (i : Image) (is : List Image) (sum : ℕ)
    → leb sum five_gb ≡ false
    → d.removes_image i.id ≡ true
    → prune_each d (i ∷ is) sum ≡ prune_each d is (sum - i.size)
unfolding prune_each
prune_each-over d i is sum e accepted = rw (e, accepted) refl

Pruned-cons :
    (i : Image) (is kept : List Image) (end : ℕ)
    → five_gb < i.size + size_of is
    → Pruned is kept end
    → Pruned (i ∷ is) kept end
unfolding last_size
Pruned-cons i is kept end over k = record {
  gone = i ∷ k.gone;
  split = ap (λ l. i ∷ l) k.split;
  counted = k.counted;
  small = k.small;
  needed = inr (needed_by k.gone k.split k.needed);
}
  where
    needed_by :
        (gone : List Image)
        → is ≡ gone ++ kept
        → (gone ≡ []) ⊎ (five_gb < end + last_size gone)
        → five_gb < end + last_size (i ∷ gone)
    needed_by [] e n = omega (arith, over, ap size_of e, k.counted)
    needed_by (j ∷ js) e (inl n) = absurd (ground (arith, n))
    needed_by (j ∷ js) e (inr n) = n

prune_each-Pruned :
    (d : Daemon) (images : List Image) (sum : ℕ)
    → ((id : String) → d.removes_image id ≡ true)
    → sum ≡ size_of images
    → Pruned images (prune_each d images sum).0 (prune_each d images sum).1
prune_each-Pruned d [] sum accepts e =
    unfold prune_each in
    record { gone = []; split = refl; counted = e; small = omega (arith, e); needed = inl refl }
prune_each-Pruned d (i ∷ is) sum accepts e = elim (Bool-cases (leb sum five_gb)) [
  | inl under ↦
      subst (λ p. Pruned (i ∷ is) p.0 p.1) (sym (prune_each-under d i is sum under))
        (record {
          gone = [];
          split = refl;
          counted = e;
          small = ground (arith, under);
          needed = inl refl;
        })
  | inr over ↦
      subst (λ p. Pruned (i ∷ is) p.0 p.1) (sym (prune_each-over d i is sum over (accepts i.id)))
        (Pruned-cons i is _ _ (ground (arith, over, e))
          (prune_each-Pruned d is (sum - i.size) accepts (omega (arith, e))))
]

-- Where Docker lists its images and accepts each removal: up to 10 GB no image goes. Beyond that,
-- in the order of their age, the first ones go and the rest stays, at most 5 GB, of which the last
-- one to go would have made more.
pub prune_images-Pruned :
    (d : Daemon) (w : World)
    → d.lists ≡ true
    → ((id : String) → d.removes_image id ≡ true)
    → (size_of w.images ≤ ten_gb → prune_images d w ≡ w)
      × (ten_gb < size_of w.images
          → Pruned
              (sort_stable older w.images)
              (prune_images d w).images
              (size_of (prune_images d w).images))
unfolding prune_images
prune_images-Pruned d w up accepts = (
  λ small. rw (up, ltb-false small) refl,
  λ large.
      rw (up, ltb-true large)
        (measured (
          prune_each-Pruned d (sort_stable older w.images) (size_of w.images) accepts sorted_size)),
)
  where
    ltb-false : size_of w.images ≤ ten_gb → leb (size_of w.images) ten_gb ≡ true
    ltb-false small = ground (arith, small)

    ltb-true : ten_gb < size_of w.images → leb (size_of w.images) ten_gb ≡ false
    ltb-true large = ground (arith, large)

    sorted_size : size_of w.images ≡ size_of (sort_stable older w.images)
    sorted_size = sym (total-sort_stable older (λ (i : Image). i.size) w.images)

    measured :
        {kept : List Image} {end : ℕ}
        → Pruned (sort_stable older w.images) kept end
        → Pruned (sort_stable older w.images) kept (size_of kept)
    measured {kept} k = subst (λ e. Pruned (sort_stable older w.images) kept e) k.counted k
