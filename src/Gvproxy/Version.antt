-- ===== src/Gvproxy/Version.antt =====
-- pkg/types/version.go: the version that a program prints.
use gvisor_tap_vsock.Base.{
  Option, none, some, [], ◌∷◌, ◌++◌, Text, codes, text_eq, nat_eq, ◌==◌, if◌then◌else◌, cut_prefix,
}

-- moduleVersionFromBuildInfo, of the version of the main module that debug.ReadBuildInfo gives
unfoldable pub module_version_from_build_info : Option Text → Text
module_version_from_build_info none = []
module_version_from_build_info (some main_version) =
    if main_version == codes "(devel)" then [] else main_version

-- The first two cases of moduleVersion: the version of git archive, if git has put one in, and that of
-- the build, if it has one
abbrev version_or : Option Text → Text → Text → Text → Text
version_or none git_archive_version git_version from_build_info = git_archive_version
version_or (some rest) git_archive_version [] from_build_info = from_build_info
version_or (some rest) git_archive_version (c ∷ s) from_build_info = c ∷ s

-- moduleVersion
unfoldable pub module_version : Text → Text → Option Text → Text
unfolding module_version_from_build_info
module_version git_archive_version git_version build_info =
    version_or (cut_prefix git_archive_version (codes "$Format:")) git_archive_version git_version
      (module_version_from_build_info build_info)

-- version.String
unfoldable pub version_string : Text → Text → Text
version_string binary_name module_version = binary_name ++ codes " version " ++ module_version
