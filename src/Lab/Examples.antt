-- ===== src/Lab/Examples.antt =====
-- Three pods: one keeps its name, one takes its old name back, one is new.
use dc_net_lab.Prelude.{
  ◌≤◌, ◌≡◌, ◌≢◌, ◌⊎◌, refl, String, List, [], ◌∷◌, map, ok, err, All, Distinct,
}
use dc_net_lab.GoFmt.{show, show_on}
use dc_net_lab.Model.{PodSpec}
use dc_net_lab.Lab.{used_twice, fill_pod_names, used_names, reclaim, fill_rest, next_free, is_used}
use dc_net_lab.Lab.Names.{Named, times_asked, fill_pod_names-Distinct}

abbrev pod : String → PodSpec
pod name = record { name = name; spines = 1; racks = 1; servers_per_rack = 1 }

abbrev asked : List PodSpec
asked = pod "pod-2" ∷ pod "" ∷ pod "" ∷ []

abbrev deployed : List PodSpec
deployed = pod "pod-1" ∷ pod "east" ∷ []

-- the default name of a pod that is gone is given again
names_filled : fill_pod_names asked deployed ≡ ok (pod "pod-2" ∷ pod "east" ∷ pod "pod-1" ∷ [])
unfolding fill_pod_names used_names reclaim fill_rest next_free is_used show show_on
names_filled = refl

fill_pod_names-Distinct_example :
    ((x : String) × (fill_pod_names asked deployed ≡ err (used_twice x))
      × (x ≢ "")
      × (2 ≤ times_asked x asked))
    ⊎ ((qs : List PodSpec) × (fill_pod_names asked deployed ≡ ok qs)
        × All (λ q. q.name ≢ "") qs
        × Distinct (map (λ q. q.name) qs)
        × Named asked qs)
fill_pod_names-Distinct_example = fill_pod_names-Distinct asked deployed
