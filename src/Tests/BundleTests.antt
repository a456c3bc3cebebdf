-- ===== src/Tests/BundleTests.antt =====
-- Tests of autoschematic-core/src/bundle.rs and of the writing of bundle elements.
use autoschematic.Prelude.{
  ◌≡◌, ◌≢◌, inl, inr, refl, true, false, some, List, [], ◌∷◌, text, arith, nat_equality,
  list_equality, ◌==◌, ==_iff,
}
use autoschematic.Prelude.Dict
use autoschematic.FilePath.{normal, FilePath, component_equality, join, parent, file_name}
use autoschematic.Disk.{Disk, file}
use autoschematic.Outputs.{normal_only}
use autoschematic.Bundle.{
  child_of, ok, other_bundle, bundle_path, Element, read, write_elements, write_unbundle_element,
  check_element, write_link,
}
use autoschematic.Bundle.Ownership.{
  in_other, IsApart, go_on, write_elements_protects, write_elements-cons,
}
use autoschematic.Tests.Codec.{ron, encode_bundle, decode_bundle}

abbrev prefix : FilePath
prefix = normal (text "k8s") ∷ []

abbrev ours : FilePath
ours = normal (text "ours.ron") ∷ []

abbrev theirs : FilePath
theirs = normal (text "theirs.ron") ∷ []

abbrev pod : FilePath
pod = normal (text "pod.ron") ∷ []

abbrev service : FilePath
service = normal (text "service.ron") ∷ []

abbrev pod_path : FilePath
pod_path = normal (text "k8s") ∷ normal (text "pod.ron") ∷ []

abbrev pod_map_path : FilePath
pod_map_path = normal (text "k8s") ∷ normal (text ".bundle") ∷ normal (text "pod.ron.bun.ron") ∷ []

-- The file of the pod belongs to another bundle.
abbrev disk : Disk
disk = (pod_path, text "pod") ∷ (pod_map_path, ron.encode (child_of theirs)) ∷ []

abbrev elements : List Element
elements =
    record { addr = service; contents = text "new service" }
    ∷ record { addr = pod; contents = text "new pod" }
    ∷ []

pod_owner : read ron prefix pod disk ≡ ok (some (child_of theirs))
unfolding read bundle_path join parent file_name Dict.get encode_bundle decode_bundle normal_only
pod_owner = refl

theirs_not_ours : theirs ≢ ours
theirs_not_ours h = absurd (bool_differs ((==_iff theirs ours).1 h))
  where
    bool_differs : false ≢ true
    bool_differs e = cc

different : (p q : FilePath) → (p == q) ≡ false → p ≢ q
different p q e h = ground (arith, ==_iff p q, e)

apart : IsApart ron prefix ours pod (record { addr = service; contents = text "new service" })
unfolding bundle_path join parent file_name normal_only
apart = (different _ _ refl, different _ _ refl, different _ _ refl, different _ _ refl)

pod_is_there : (file disk (join prefix pod) ≡ some (text "pod"))
unfolding join Dict.get
pod_is_there = refl

write_elements_protects_example :
    file (write_elements ron prefix ours elements false disk).1 (join prefix pod)
    ≡ file disk (join prefix pod)
write_elements_protects_example =
    write_elements_protects ron prefix ours pod elements disk (in_other pod_owner theirs_not_ours)
      (ground (arith, pod_is_there)) (inr apart, (inl refl, tt))

round_first :
    write_elements ron prefix ours elements false disk
    ≡ go_on ron prefix ours (record { addr = pod; contents = text "new pod" } ∷ []) false disk (
        write_unbundle_element ron prefix ours
          (record { addr = service; contents = text "new service" })
          false
          true
          disk)
round_first =
    write_elements-cons ron prefix ours (record { addr = service; contents = text "new service" })
      (record { addr = pod; contents = text "new pod" } ∷ []) false true disk

refuses_pod : (write_elements ron prefix ours elements false disk).0 ≡ other_bundle
unfolding write_elements check_element read bundle_path join parent file_name Dict.get Dict.insert
    Dict.remove encode_bundle decode_bundle normal_only write_link
refuses_pod = refl
