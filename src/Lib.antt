-- ===== src/Lib.antt =====
-- A verification library of Purr, a desktop HTTP and GraphQL client. It models the part of the TypeScript
-- code that decides what a request sends and what a workspace keeps. Paths are those of the repository.
--
-- The parts, and how they interact. A project's files hold definitions of requests, schemas, folders,
-- environments and variables, which are checked when they are read (Project). An open workspace holds the
-- same things as documents that the user edits in tabs (Workspace), and variables at three levels, of
-- which one is chosen for each name (Workspace/Namespace). Texts of a request refer to variables by
-- templates `{{name}}` (Template), which are replaced, recursively, before a request is sent (Resolve).
-- What a request is sent with is put together from its own parameters and headers (Request/Query,
-- Request/Paths, Sending) and its body (Form), from what the workspace shares with it (Request/Shared) and
-- from its authentication, its own or an inherited one (Authentication). A curl command is imported as a request, and
-- a request is written as one (Curl).
-- Beside them stand the controller of the application's updates, a state machine of asynchronous methods
-- (Updates), and the registry of what extensions contribute (Registry).
--
-- The files, and the code that each models:
--   Template, Template/*: src/domain/template-expression.ts. A text is the list of its code units; the
--     regular expression of `templateTokens` is the scanner `template_tokens`.
--   Resolve, Resolve/*: src/shared/lib/resolve-variables.ts. A record of variables is a partial function, an
--     exception is an error value.
--   Request, Request/Auth: the data and the defaults of src/features/request-workbench/model/request.ts,
--     request-auth.ts and request-body.ts.
--   Request/Query, Request/Paths: the query and path parameters of request.ts and the URL. `URLSearchParams`,
--     `encodeURIComponent` and what `Number` reads of an id are fields of a parameter, `Web`.
--   Request/Bounds: src/domain/request-settings.ts and `getRequestSettings`.
--   Request/Shared, Request/Shared/*: src/features/request-workbench/model/request-workspace-config.ts and
--     `resolveRequestTracing` of request-tracing.ts; `toLowerCase` is a parameter.
--   Sending, Sending/Kept: the managed headers and parameters of request.ts, `traceHeaderPreview` and
--     `getBodyContentType`.
--   Form, Form/Whole: the validation and the serialisation of bodies in request-body.ts; a blob is the list of
--     what it is made of.
--   Authentication, Authentication/*: src/features/request-workbench/model/request-auth.ts, from
--     `resolveAuth` to `getAuthBinding`. An object that `resolveAuth` compares by identity carries an
--     address. A name is looked up in a record as the code does it, among the members of
--     `Object.prototype` too. `btoa`, `encodeURIComponent` and the clock are parameters.
--   Curl, Curl/*: src/features/request-workbench/model/curl-import.ts and `formatCurlRequest` of
--     request-code.ts, which is given the text of the body.
--   Variable, Workspace, Workspace/Tabs, Workspace/Namespace and the files below them:
--     src/features/workspaces/model/workspace.ts. An operation takes a workspace to a workspace, as the
--     source's do (`openDocument` is `open_document`, `closeDocument` is `close_document`, and so on).
--     `isDocumentDirty` compares the JSON texts of two states of a request; that comparison is the
--     parameter `same_definition` of the operations that use it.
--   Project, Project/*: src/domain/project.ts. The schemas are data types (Project), tests of what they ask
--     beyond the shape (Project/Patterns, Project/Parse) and what they change, the trimming of names.
--     `validateProject` is Project/Validate with Project/Refs (`checkRefs`) and Project/Folders (the walk
--     through the folders); the checks of version 2 files are Project/Credentials.
--   Updates, Updates/*: src/features/updates/update-controller.ts. What lies between two `await`s is one step;
--     the calls of the user and the answers to what is waited for are events, in any order.
--   Registry, Registry/*: src/extension-api/registry.ts. A registration takes a registry to a registry, or
--     throws; the sets of taken identifiers are lists.
--   History, History/Returned: src/features/history/model/history-working-copy.ts, `historySource` and
--     `returnFromHistory` over the workspace's tabs.
--   Common, Common/*: shared helpers.
--
-- Fuel. `resolveEnvironmentValue` refuses a stack of 32 names, so that fuel 33 is enough. The walk through
-- the folders visits no folder twice, so that the number of resources and two is enough. `resolveAuth`
-- comes to no object twice: the request's own, those of a schema, a workspace and an environment, and those
-- of the workspace's profiles, so that the number of the profiles and six is enough. The check of the
-- variables that a value uses enters each variable once, so that their number and two is enough. All
-- other recursion is structural.
--
-- Not modelled: React components and hooks, the adapters of the desktop host and the host itself (Rust),
-- the storage, the network and the scripts; the reading of untyped JSON by the schemas (definitions are
-- typed here), opaque JSON configuration, the diagnostics of JSON and XML and the conversion between them,
-- the reasons shown for read-only rows, and the widths and the views of the window. Ids whose number is not natural
-- count as ids without one; the numbers of the query parameters' ids are added by a parameter, as doubles
-- are exact only below 2^53, while those of path parameters and form fields are numbers without a bound.
-- The limits among the settings are natural numbers, so that what is none counts as a setting of another
-- type. Dynamic variables, the rest of the history, cookies and the sending of requests are not modelled
-- either.
mod Common
pub mod Template
pub mod Request
pub mod Workspace
pub mod Resolve
pub mod Updates
pub mod Project
pub mod Registry
pub mod Authentication
pub mod Curl
pub mod Sending
pub mod Form
pub mod History
pub mod Variable
