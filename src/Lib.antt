-- ===== src/Lib.antt =====
-- The web client of an industrial monitoring dashboard (frontend/src): a React application that talks to
-- the Go server over HTTP. This library models its logic, the part of the components that is not markup:
-- the HTTP layer, the account forms, the alert pages, the registers of the machines, the wizard for worker
-- configurations, the dashboard editor, the charts and the indicator, the stored settings, the overview, the
-- administration pages, and the queries and mutations that the pages share. A component's
-- state is a record, a handler is a function from a state to a state, with the mutation it sends where it
-- sends one, and what the user and the server do is a list of events.
--
-- Base: booleans, lists, keyed collections and texts with the behaviour of JavaScript's operations
--   (`filter`, `find`, `includes`, `Set`, `trim`, `split`, `sort`, `JSON.stringify`). A text that the program only
--   compares is a `String`; one that it walks is a list of code points.
-- Api: `apiFetch` of frontend/src/lib/api.ts as a state passing function over a `World`, the server's state
--   and the log of requests; `fetch` is a parameter. Api.Json has `fetchJSON` and `mutateJSON` of
--   frontend/src/lib/hooks.ts, with `JSON.parse` as a parameter.
-- Auth: `mapAuthError` of frontend/src/lib/auth-errors.ts, the forms of pages/RegisterPage.tsx and
--   pages/LoginPage.tsx over Api, the provider of lib/auth.tsx and the route guard of App.tsx. What
--   `res.json()` gives on a refusal is a parameter.
-- Hooks: every query and every mutation of frontend/src/lib/hooks.ts and the queries that components write
--   in place, as values: the key, the request, how the answer is read and the keys that are invalidated
--   (Plant, Accounts, Workers and Widgets the queries; Actions and Sent the mutations; Queries and Mutations
--   the two catalogues). `invalidateQueries` of React Query is a parameter, a record with the documented
--   behaviour that a key marks the queries whose keys it begins. Facts says which of the server's data a
--   query reads and a mutation changes, as the routes of internal/ and the
--   tables of migrations/ do, and Pages which page mounts a query and
--   offers a mutation. Answers runs a mutation against an answer, and Download the download of a worker
--   configuration, whose file name the server's `sanitizeFilename` and header carry.
-- Alerts: the table of rules of pages/AlertRulesPage.tsx, the dialog of
--   components/alerts/AlertRuleDialog.tsx and the table of events of pages/AlertsPage.tsx. Thresholds are a
--   parameter, a type with `===`; JavaScript's NaN does not reach it, since the form reads `|| 0`.
-- Registers: the table of registers of components/admin/RegisterTable.tsx and the import dialog of
--   components/admin/CsvImportDialog.tsx with `parseCSV`. Numbers are a parameter, a type with `===`, as are
--   `parseFloat`, `parseInt`, `JSON.parse` and `JSON.stringify` of registers. A header named `__proto__`,
--   which JavaScript would not make a field, is a field here.
-- WorkerConfig: the wizard of pages/admin/WorkerConfigEditPage.tsx. Its validation writes regular expressions;
--   they are data here, tested by derivatives, and what they accept is proved from what they stand for.
--   Ports and slave ids are integers; `parseInt` is a parameter.
-- Settings: lib/refresh-interval.tsx, with the decimal numerals that it stores, and lib/site-context.tsx. A
--   browser whose `localStorage` throws is left out.
-- Admin: pages/admin/AuditLogPage.tsx, RolesPage.tsx, ApiKeysPage.tsx and UsersPage.tsx. The groups of
--   permissions are in the order of their first permission; names that JavaScript takes for array indices are not treated apart.
-- Dashboards: the editor of pages/dashboards/DashboardEditorPage.tsx, over any type of configurations, and the
--   list of data sources and the legend of components/widget-config; the list of dashboards of
--   DashboardListPage.tsx (Listing) and the dialog of ShareDialog.tsx (Share). The user and the current site do
--   not change in a run.
-- Sites: components/admin/SiteDetail.tsx with its forms, and the list of pages/admin/SitesPage.tsx. The object
--   that the server answers for a site nests its fields; the panel reads them from the top.
-- Workers: components/admin/WorkerTable.tsx, WorkerDetail.tsx and CommandConfirmDialog.tsx. How a duration is
--   printed is a parameter.
-- Times: the ages and uptimes that pages print from a difference in milliseconds or seconds.
-- Overview: the counts and the alerts of pages/DashboardPage.tsx and of components/widgets/AlertListWidget.tsx.
-- Indicators: components/widgets/IndicatorWidget.tsx, over numbers that are a parameter with `String`,
--   `Number` and the comparisons; its expression for a range is a function by clauses; and the form of
--   components/widget-config/IndicatorConfig.tsx (Sheet).
-- Widgets: the frame of components/widgets/WidgetRenderer.tsx, the table of forms of
--   components/widget-config/WidgetConfigSheet.tsx, the countdown of PollingCountdown.tsx in milliseconds, and the
--   rows of DataTableWidget.tsx and MachineStatusWidget.tsx.
-- Charts: the data of components/widgets/LineChartWidget.tsx. The query cache of React Query is a parameter, a
--   function from a key to the result that it has for it, and so is the time of a point's text.
--
-- The awaited answer of a mutation is an argument of its handler. Recursion is on the list of events, on
-- the text or on a count of seconds; only the digits of a number are printed with fuel, one more than the number, which is enough
-- since each digit divides it by ten. Not modelled: the markup and the styles, the timers that clear a
-- message, the translations (a message is its key), the libraries (React, React Query, React Router,
-- recharts, i18next), and of the Go server all but the few functions named above.
pub mod Admin
pub mod Alerts
pub mod Api
pub mod Auth
pub mod Base
pub mod Charts
pub mod Dashboards
pub mod Hooks
pub mod Indicators
pub mod Overview
pub mod Registers
pub mod Settings
pub mod Sites
pub mod Times
pub mod Widgets
pub mod WorkerConfig
pub mod Workers
