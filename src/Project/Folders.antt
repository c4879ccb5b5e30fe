-- ===== src/Project/Folders.antt =====
-- src/domain/project.ts: the walk of `validateProject` from a resource up through its folders.
use purr.Common.{
  ℕ, zero, suc, Bool, true, false, ◌&&◌, Option, none, some, List, [], ◌∷◌, String, ◌===◌, includes,
  length, find, if◌then◌else◌,
}
use purr.Project.{
  ProjectResource, ResourceKind, folder, ProjectError, folder_cycle, missing_folder, out_of_fuel,
}

abbrev pub is_folder : ResourceKind → Bool
is_folder folder = true
is_folder _ = false

-- `resources.find((item) => item.id === parent && item.kind === "folder")`
abbrev pub find_folder : List ProjectResource → String → Option ProjectResource
find_folder resources parent =
    find (λ item. (ProjectResource.id item === parent) && is_folder (ProjectResource.kind item))
      resources

abbrev pub climb_to :
    Option ProjectResource → (Option String → Option ProjectError) → Option ProjectError
climb_to none go = some missing_folder
climb_to (some f) go = go f.folder_id

-- The `while` loop, on fuel; an empty identifier ends it as well.
unfoldable pub climb : ℕ → List ProjectResource → List String → Option String → Option ProjectError
climb fuel resources seen none = none
climb zero resources seen (some parent) = some out_of_fuel
climb (suc fuel) resources seen (some parent) =
    if parent === ""
    then none
    else if includes seen parent
    then some folder_cycle
    else climb_to (find_folder resources parent) (climb fuel resources (parent ∷ seen))

-- The walk of one resource. It takes a step for each resource at most.
unfoldable pub validate_folders : List ProjectResource → ProjectResource → Option ProjectError
unfolding climb
validate_folders resources r =
    climb (suc (suc (length resources))) resources (r.id ∷ []) r.folder_id
